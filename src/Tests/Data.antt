-- ===== src/Tests/Data.antt =====
-- The system, files, rows and states that the tests share.
use gnaro.Base.{
  ℕ, zero, suc, ◌+◌, ◌≡◌, refl, false, Option, none, some, List, [], ◌∷◌, ◌++◌, replicate, map,
}
use gnaro.Memory.{File, Pager, Run, ok, exited, fault, out_of_fuel, Cmd, pure, ◌>>=◌, put}
use gnaro.Memory.Bytes.{Page, set_word}
use gnaro.Row.{Row}
use gnaro.Pager.{Env}
use gnaro.Database.{root_page_num, database_open}
use gnaro.Statement.Prepare.{bytes, Statement, insert}
use gnaro.Statement.Execute.{
  StatementExecuteResult, statement_execute_insert, statement_execute_select,
}

-- A system on which nothing fails and memory comes zeroed.
abbrev pub env : Env
env = record {
  fresh = λ n a. 0;
  read_fails = λ _. false;
  position = λ _. 0;
  seek_fails = λ _. false;
  write_fails = λ _. false;
}

abbrev pub empty_file : File
empty_file = record { size = 0; bytes = λ _. 0 }

abbrev pub user : ℕ → Row
user k = record {
  id = k;
  username = bytes "bob" ++ replicate 30 0;
  email = bytes "bob@x.y" ++ replicate 249 0;
}

abbrev pub no_pages : Pager
no_pages = record {
  file_descriptor = empty_file;
  file_length = 0;
  num_pages = 0;
  pages = λ _. none;
}

abbrev pub blank : Page
blank = λ _. 0

-- A statement whose row has not been filled in.
abbrev pub fresh_statement : Statement
fresh_statement = record {
  type = insert;
  row_to_insert = record { id = 0; username = replicate 33 0; email = replicate 256 0 };
}

-- An internal node with the separators 10 and 20 and the children 4, 5 and 6.
abbrev pub two_keys : Page
two_keys =
    set_word (set_word (set_word (set_word (set_word (set_word blank 6 2) 14 4) 18 10) 22 5) 26 20)
      10 6

abbrev pub two_keys_state : Pager
two_keys_state = put 3 two_keys no_pages

-- What `database_open` and two inserts give.
abbrev pub reads : (o : ℕ) → env.read_fails o ≡ false
reads o = refl

abbrev pub two_rows : List Row
two_rows = user 5 ∷ user 3 ∷ []

-- Inserts of rows with the given ids.
unfoldable pub insert_ids : List ℕ → Cmd (List StatementExecuteResult)
insert_ids [] = pure []
insert_ids (k ∷ ks) = do
  result ←
      statement_execute_insert env 50 root_page_num
        (record { type = insert; row_to_insert = user k })
  results ← insert_ids ks
  pure (result ∷ results)

unfoldable pub select_ids : Cmd (List ℕ)
select_ids = do
  (rows, result) ← statement_execute_select env 100 root_page_num
  pure (map (λ (r : Row). r.id) rows)

-- `n` numbers from `k` on.
abbrev pub count_up : ℕ → ℕ → List ℕ
count_up k zero = []
count_up k (suc n) = k ∷ count_up (k + 1) n

-- How a run on a new database ends.
pub data Outcome (A : Type 0) : Type 0 where
  returned : A → Outcome A
  left_by_exit : Outcome A
  undefined : Outcome A
  unfinished : Outcome A

abbrev pub outcome : {A : Type 0} → Run A → Outcome A
outcome (ok a s) = returned a
outcome exited = left_by_exit
outcome fault = undefined
outcome out_of_fuel = unfinished

abbrev pub go_on : {A : Type 0} → Cmd A → Option (Run (Unit {0})) → Outcome A
go_on c (some (ok _ s)) = outcome (c s)
go_on c _ = undefined

unfoldable pub run : {A : Type 0} → Cmd A → Outcome A
run c = go_on c (database_open env (some empty_file))
