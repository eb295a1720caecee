-- ===== src/Repl/Insert.antt =====
-- What a line with an insert does to a table of one leaf.
use gnaro.Base.{
  ℕ, ◌≤◌, ◌<◌, ◌≡◌, refl, ap, arith, true, false, some, List, [], ◌∷◌, ◌++◌, length, le→not_ltb,
}
use gnaro.Memory.{Pager, ok}
use gnaro.Row.{Row, c_string}
use gnaro.Pager.{Env}
use gnaro.Btree.Layout.{leaf_max_cells}
use gnaro.Btree.Leaf.View.{Cell}
use gnaro.Statement.Text.{ℤ, pos, negsuc, starts_with, atoi}
use gnaro.Statement.Prepare.{bytes, Statement, StatementType, insert, select, statement_prepare}
use gnaro.Statement.Prepare.{success as prepared}
use gnaro.Statement.Prepare.Safe.{atoi-lt}
use gnaro.Statement.Prepare.Words.{IsWord, four_words, column_result, prepare-four_words}
use gnaro.Statement.Execute.{StatementExecuteResult, statement_execute, statement_execute_insert}
use gnaro.Database.{root_page_num}
use gnaro.Table.Open.{Shows}
use gnaro.Table.Session.{answer, apply_insert, insert-Shows}
use gnaro.Repl.{executed, run_line, run_prepared}

-- A line that starts with `insert` is no meta command.
no_dot :
    (keyword rest : List ℕ)
    → starts_with (bytes "insert") keyword ≡ true
    → starts_with (bytes ".") (keyword ++ rest) ≡ false
unfolding starts_with
no_dot [] rest h = ground arith
no_dot (c ∷ cs) rest h = ground arith

-- The value of an `int` that is not negative.
abbrev pos_value : ℤ → ℕ
pos_value (pos n) = n
pos_value (negsuc n) = 0

execute_typed :
    (env : Env) (fuel : ℕ) (type : StatementType) (row : Row) (s t : Pager)
    (result : StatementExecuteResult)
    → type ≡ insert
    → statement_execute_insert env fuel root_page_num
        (record { type = insert; row_to_insert = row })
        s
      ≡ ok result t
    → statement_execute env fuel root_page_num (record { type = type; row_to_insert = row }) s
      ≡ ok ([], result) t
unfolding statement_execute
execute_typed env fuel insert row s t result e runs = rw runs refl
execute_typed env fuel select row s t result e runs = absurd (cc)

run_inserted :
    (env : Env) (fuel : ℕ) (statement st : Statement) (line : List ℕ) (s t : Pager)
    (result : StatementExecuteResult)
    → starts_with (bytes ".") line ≡ false
    → statement_prepare line statement ≡ some (prepared, st)
    → statement_execute env fuel root_page_num st s ≡ ok ([], result) t
    → run_line env fuel statement line s ≡ ok (some (executed [] result)) t
unfolding run_line run_prepared
run_inserted env fuel statement st line s t result dot prepares runs = rw (dot, prepares, runs) refl

-- A line of four words that starts with `insert`, with an id that an `int` holds, a name of at most
-- 32 and an address of at most 255 bytes, on a table of one leaf with less than 13 cells: the line is
-- executed, on a row with that id, name and address; the answer is that of the sorted reference, a
-- repeated id being refused, and the table then shows the reference's cells.
pub run_line-insert :
    (env : Env) (fuel : ℕ) (keyword id_string username email : List ℕ) (id : ℕ)
    (statement : Statement) (s : Pager) (xs : List Cell)
    → starts_with (bytes "insert") keyword ≡ true
    → IsWord keyword
    → IsWord id_string
    → IsWord username
    → IsWord email
    → atoi id_string ≡ some (pos id)
    → length username ≤ 32
    → length email ≤ 255
    → Shows s xs
    → length xs < leaf_max_cells
    → (t : Pager) × (r : Row) × (run_line env fuel statement
          (four_words keyword id_string username email)
          s
        ≡ ok (some (executed [] (answer r xs))) t)
      × Shows t (apply_insert r xs)
      × (r.id ≡ id)
      × (c_string r.username ≡ c_string username)
      × (c_string r.email ≡ c_string email)
run_line-insert env fuel keyword id_string username email id statement s xs starts k i u e number
      short short' v room =
    let (st, prepares, type, columns) =
      prepare-four_words keyword id_string username email (pos id) statement starts k i u e
        number in
    let good : column_result (pos id) username email ≡ prepared =
      rw (le→not_ltb 32 (length username) short, le→not_ltb 255 (length email) short') refl in
    let (id_eq, name_eq, mail_eq) = columns good in
    let same_id : st.row_to_insert.id ≡ id = ap pos_value id_eq in
    let (t, runs, v') =
      insert-Shows env fuel st.row_to_insert s xs v
        (omega (arith, atoi-lt id_string id number, same_id)) room in
    (
      t,
      st.row_to_insert,
      run_inserted env fuel statement st (four_words keyword id_string username email) s t
          (answer st.row_to_insert xs)
          (no_dot keyword (b' ' ∷ (id_string ++ b' ' ∷ (username ++ b' ' ∷ email))) starts)
          (rw good at prepares)
          (execute_typed env fuel st.type st.row_to_insert s t (answer st.row_to_insert xs) type
            runs),
      v',
      same_id,
      name_eq,
      mail_eq,
    )
