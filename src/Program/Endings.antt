-- ===== src/Program/Endings.antt =====
-- The ends of a run of the program.
use gnaro.Base.{ℕ, ◌%◌, ◌<◌, ◌≡◌, ◌≢◌, Bool, none, some, List, Option, ◌⊎◌}
use gnaro.Memory.{File, Pager, Run, ok, exited, fault, out_of_fuel, page_size}
use gnaro.Pager.{Env}
use gnaro.Statement.Prepare.{Statement}
use gnaro.Database.{DatabaseResult, database_open, database_close}
use gnaro.Input.{input_read}
use gnaro.Repl.{Answer, run_line}
use gnaro.Repl.Ends.{Rounds}
use gnaro.Table.Opening.{RootUnreadable}
use gnaro.Program.{
  Arguments, usage, argument_errors, session, Ending, finished, undefined, exit_failure, unfinished,
  program, argtable_arg_max,
}

-- The program ends as a run does that stops before its value.
pub data StopsProgram {A : Type 0} (x : Run A) (e : Ending) : Type 0 where
  by_exit : x ≡ exited → e ≡ exit_failure → StopsProgram x e
  by_fault : x ≡ fault → e ≡ undefined → StopsProgram x e
  by_fuel : x ≡ out_of_fuel → e ≡ unfinished → StopsProgram x e

-- There is no file, or it is no whole number of pages.
pub CannotOpen : Option File → Type 0
CannotOpen fd = (fd ≡ none) ⊎ ((f : File) × (fd ≡ some f) × (f.size % page_size ≢ 0))

module _ (env : Env) (fuel : ℕ) (statement : List ℕ → Statement) where
  -- The loop is left in state `t`, at the end of the input or with a line that leaves it.
  pub data IsOver (input : List ℕ) (s : Pager) (answers : List Answer) (t : Pager) : Type 0 where
    at_end :
        (left : List ℕ)
        → Rounds env fuel statement input s answers left t
        → input_read left ≡ none
        → IsOver input s answers t
    by_command :
        (left line rest : List ℕ) (u : Pager)
        → Rounds env fuel statement input s answers left u
        → input_read left ≡ some (line, rest)
        → run_line env fuel (statement rest) line u ≡ ok none t
        → IsOver input s answers t

module _ (arguments : Arguments) (file : Option File) (env : Env) (fuel : ℕ)
    (statement : List ℕ → Statement) (close_fails : Bool) (input : List ℕ) where
  -- How the program ends, and in which cases.
  pub data ProgramEnd (e : Ending) : Type 0 where
    usage_shown : 0 < arguments.help → e ≡ finished 0 usage → ProgramEnd e
    arguments_refused :
        arguments.help ≡ 0 → 0 < arguments.errors → e ≡ finished 1 argument_errors → ProgramEnd e
    null_database :
        arguments.help ≡ 0 → arguments.errors ≡ 0 → CannotOpen file → e ≡ undefined → ProgramEnd e
    root_unreadable :
        (f : File)
        → arguments.help ≡ 0
        → arguments.errors ≡ 0
        → file ≡ some f
        → RootUnreadable env f
        → e ≡ exit_failure
        → ProgramEnd e
    command_stops :
        (s u : Pager) (answers : List Answer) (left line rest : List ℕ)
        → arguments.help ≡ 0
        → arguments.errors ≡ 0
        → database_open env file ≡ some (ok tt s)
        → Rounds env fuel statement input s answers left u
        → input_read left ≡ some (line, rest)
        → StopsProgram (run_line env fuel (statement rest) line u) e
        → ProgramEnd e
    closing_stops :
        (s t : Pager) (answers : List Answer)
        → arguments.help ≡ 0
        → arguments.errors ≡ 0
        → database_open env file ≡ some (ok tt s)
        → IsOver env fuel statement input s answers t
        → StopsProgram (database_close env close_fails t) e
        → ProgramEnd e
    returns :
        (s t u : Pager) (answers : List Answer) (result : DatabaseResult)
        → arguments.help ≡ 0
        → arguments.errors ≡ 0
        → database_open env file ≡ some (ok tt s)
        → IsOver env fuel statement input s answers t
        → database_close env close_fails t ≡ ok result u
        → e ≡ finished 0 (session answers result)
        → ProgramEnd e

module _ (arg_parse : (max_errors : ℕ) → List (List ℕ) → Arguments)
    (open_file : List ℕ → Option File) (env : Env) (fuel : ℕ) (statement : List ℕ → Statement)
    (close_fails : Bool) (argv : List (List ℕ)) (input : List ℕ) where
  abbrev arguments : Arguments
  arguments = arg_parse argtable_arg_max argv

  abbrev file : Option File
  file = open_file arguments.database

  abbrev whole_run : Ending
  whole_run = program arg_parse open_file env fuel statement close_fails argv input
