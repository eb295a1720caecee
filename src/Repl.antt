-- ===== src/Repl.antt =====
-- The loop of `main` in src/gnaro.c, from the opening of the database on, and its cleanup.
pub mod Ends
pub mod Insert
use gnaro.Base.{ℕ, zero, suc, ◌+◌, Bool, Option, none, some, List, [], ◌∷◌, if◌then◌else◌, length}
use gnaro.Memory.{File, Run, Cmd, pure, starved, fault, and_then, ◌>>=◌}
use gnaro.Row.{Row}
use gnaro.Pager.{Env}
use gnaro.Btree.Print.{Line}
use gnaro.Statement.Text.{starts_with}
use gnaro.Statement.Prepare.{bytes, Statement, StatementPrepareResult, success, statement_prepare}
use gnaro.Statement.Execute.{StatementExecuteResult, statement_execute}
use gnaro.Database.{DatabaseResult, root_page_num, database_open, database_close}
use gnaro.Input.{input_read}
use gnaro.Meta.{MetaCommandResult, exit, unrecognized, meta_execute_command}

-- What one round of the loop shows to the user.
pub data Answer : Type 0 where
  printed : List Line → Answer
  unrecognized_command : Answer
  failed_to_prepare : StatementPrepareResult → Answer
  executed : List Row → StatementExecuteResult → Answer

-- The `switch` over the result of a meta command; `none` leaves the loop.
unfoldable pub meta_answer : List Line × MetaCommandResult → Option Answer
meta_answer (lines, MetaCommandResult.success) = some (printed lines)
meta_answer (lines, exit) = none
meta_answer (lines, unrecognized) = some unrecognized_command

-- The answers from this round on; `next` is the rest of the loop.
abbrev pub continue_with : Cmd (List Answer) → Option Answer → Cmd (List Answer)
continue_with next none = pure []
continue_with next (some answer) = do answers ← next; pure (answer ∷ answers)

-- `fuel` bounds the walks in the tree.
module _ (env : Env) (fuel : ℕ) where
  -- The `switch` over the result of `statement_prepare`, and the execution behind it.
  unfoldable pub run_prepared : Option (StatementPrepareResult × Statement) → Cmd (Option Answer)
  run_prepared none = λ _. fault
  run_prepared (some (success, prepared)) = do
    (rows, result) ← statement_execute env fuel root_page_num prepared
    pure (some (executed rows result))
  run_prepared (some (result, prepared)) = pure (some (failed_to_prepare result))

  -- One round of the loop, on the line that was read.
  unfoldable pub run_line : Statement → List ℕ → Cmd (Option Answer)
  unfolding meta_answer run_prepared
  run_line statement line =
      if starts_with (bytes ".") line
      then (do result ← meta_execute_command env fuel line; pure (meta_answer result))
      else run_prepared (statement_prepare line statement)

-- `statement` is what the uninitialised variable of `main` holds in the round that leaves the given
-- input, so that each round has its own.
module _ (env : Env) (fuel : ℕ) (statement : List ℕ → Statement) where
  abbrev pub run_round : (List ℕ → Cmd (List Answer)) → Option (List ℕ × List ℕ) → Cmd (List Answer)
  run_round loop none = pure []
  run_round loop (some (line, rest)) = do
    answer ← run_line env fuel (statement rest) line
    continue_with (loop rest) answer

  -- One line of the input for each unit of `rounds`.
  unfoldable pub repl_loop : (rounds : ℕ) → (input : List ℕ) → Cmd (List Answer)
  repl_loop zero input = starved
  repl_loop (suc rounds) input = run_round (repl_loop rounds) (input_read input)

  -- The loop and the cleanup.
  unfoldable pub repl : (close_fails : Bool) → (input : List ℕ) → Cmd (List Answer × DatabaseResult)
  unfolding repl_loop
  repl close_fails input = do
    answers ← repl_loop (length input + 1) input
    result ← database_close env close_fails
    pure (answers, result)

  -- A database that cannot be opened goes to the cleanup as a null pointer.
  abbrev pub with_database {ℓ} : {A : Type ℓ} → Option (Run (Unit {0})) → Cmd A → Run A
  with_database none run = fault
  with_database (some opened) run = and_then opened (λ _. run)

  unfoldable pub main :
      (fd : Option File)
      → (close_fails : Bool) → (input : List ℕ) → Run (List Answer × DatabaseResult)
  unfolding repl
  main fd close_fails input = with_database (database_open env fd) (repl close_fails input)
