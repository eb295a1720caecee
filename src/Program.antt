-- ===== src/Program.antt =====
-- The whole of `main` in src/gnaro.c: the arguments, the exit code and what the user is shown.
pub mod Endings
use gnaro.Base.{
  ℕ, ◌<◌, ◌≡◌, ◌≢◌, refl, arith, Bool, true, false, Option, none, some, List, ltb, if◌then◌else◌,
  lt→ltb, le→not_ltb,
}
use gnaro.Memory.{File, Pager, Run, ok, exited, fault, out_of_fuel, Cmd, and_then}
use gnaro.Pager.{Env}
use gnaro.Statement.Prepare.{Statement}
use gnaro.Database.{DatabaseResult, database_open}
use gnaro.Repl.{Answer, repl, main, with_database}

-- How many errors in the arguments `arg_parse` keeps at most.
abbrev pub argtable_arg_max : ℕ
argtable_arg_max = 20

-- What `arg_parse` of the argtable library finds: how often each option was given, the values of
-- `-d`, and the number of errors.
pub record Arguments : Type 0 where
  pub help : ℕ
  pub version : ℕ
  pub database : List ℕ
  pub verbosity : ℕ
  pub errors : ℕ

-- What is shown: the usage, the errors in the arguments, or a session and the answer to its end.
pub data Output : Type 0 where
  usage argument_errors : Output
  session : List Answer → DatabaseResult → Output

-- How the program ends: it returns from `main` with an exit code, it calls `exit(EXIT_FAILURE)`, its
-- behaviour is undefined, or it needs more fuel.
pub data Ending : Type 0 where
  finished : (exitcode : ℕ) → Output → Ending
  exit_failure undefined unfinished : Ending

unfoldable pub ending : Run (List Answer × DatabaseResult) → Ending
ending (ok (answers, result) s) = finished 0 (session answers result)
ending exited = exit_failure
ending fault = undefined
ending out_of_fuel = unfinished

-- `arg_parse` is the argtable library's, and `open_file` what the system answers to `open`.
unfoldable pub program :
    (arg_parse : (max_errors : ℕ) → List (List ℕ) → Arguments)
    → (open_file : List ℕ → Option File) → Env
    → (fuel : ℕ) → (List ℕ → Statement)
    → (close_fails : Bool) → (argv : List (List ℕ)) → (input : List ℕ) → Ending
unfolding ending
program arg_parse open_file env fuel statement close_fails argv input =
    let arguments = arg_parse argtable_arg_max argv in
    if ltb 0 arguments.help
    then finished 0 usage
    else if ltb 0 arguments.errors
    then finished 1 argument_errors
    else ending (main env fuel statement (open_file arguments.database) close_fails input)
