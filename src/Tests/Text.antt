-- ===== src/Tests/Text.antt =====
-- The theorems on statements, the input, the loop of main and the file at inputs that meet their
-- hypotheses.
use gnaro.Base.{ℕ, List, ◌≢◌, ◌<◌, ◌≡◌, refl, some, [], ◌∷◌, arith, false}
use gnaro.Memory.{Pager, ok, put}
use gnaro.Memory.Bytes.{Page}
use gnaro.Row.{c_string}
use gnaro.Pager.{pager_open}
use gnaro.Btree.Grow.{internal_split_and_insert}
use gnaro.Btree.Grow.Never.{HasNoValue, internal_split_and_insert-HasNoValue}
use gnaro.Database.{root_page_num, database_open, database_close, close_success}
use gnaro.Database.Failing.{IsClosed, database_close-IsClosed}
use gnaro.Database.Reopen.{Delivers, database_close-Delivers}
use gnaro.Statement.Text.{pos, atoi, starts_with}
use gnaro.Statement.Prepare.{Statement, bytes, insert, statement_prepare}
use gnaro.Statement.Prepare.{success as prepared}
use gnaro.Statement.Prepare.Words.{IsWord, four_words, column_result, prepare-four_words}
use gnaro.Statement.Prepare.Safe.{RowIsSafe, statement_prepare-IsRow}
use gnaro.Statement.Execute.{success, statement_execute_select}
use gnaro.Table.Select.{rows}
use gnaro.Table.Session.{answers, apply_inserts, execute_inserts}
use gnaro.Table.Durable.{session-durable}
use gnaro.Input.{input_read}
use gnaro.Input.Lines.{IsText, nothing, more, input_read-text}
use gnaro.Repl.{repl_loop}
use gnaro.Repl.Ends.{LoopEnd, repl_loop-LoopEnd}
use gnaro.Tests.Data.{
  env, empty_file, no_pages, fresh_statement, two_keys, two_keys_state, reads, two_rows,
}

internal_split_and_insert-HasNoValue_example :
    HasNoValue (internal_split_and_insert env 9 root_page_num 3 4 two_keys_state)
internal_split_and_insert-HasNoValue_example =
    internal_split_and_insert-HasNoValue env 9 root_page_num 3 4 two_keys_state

pub insert-IsWord : IsWord (bytes "insert")
insert-IsWord = (λ e. cc, (refl, (refl, (refl, (refl, (refl, (refl, tt)))))))

pub id-IsWord : IsWord (bytes "12")
id-IsWord = (λ e. cc, (refl, (refl, tt)))

pub name-IsWord : IsWord (bytes "bob")
name-IsWord = (λ e. cc, (refl, (refl, (refl, tt))))

pub mail-IsWord : IsWord (bytes "b@x")
mail-IsWord = (λ e. cc, (refl, (refl, (refl, tt))))

prepare-four_words_example :
    (st : Statement) × (statement_prepare
        (four_words (bytes "insert") (bytes "12") (bytes "bob") (bytes "b@x"))
        fresh_statement
      ≡ some (prepared, st))
    × (st.type ≡ insert)
    × (column_result (pos 12) (bytes "bob") (bytes "b@x") ≡ prepared
        → (pos st.row_to_insert.id ≡ pos 12)
          × (c_string st.row_to_insert.username ≡ c_string (bytes "bob"))
          × (c_string st.row_to_insert.email ≡ c_string (bytes "b@x")))
unfolding starts_with atoi
prepare-four_words_example =
    prepare-four_words (bytes "insert") (bytes "12") (bytes "bob") (bytes "b@x") (pos 12)
      fresh_statement refl insert-IsWord id-IsWord name-IsWord mail-IsWord refl

statement_prepare-IsRow_example :
    RowIsSafe (statement_prepare (bytes "insert 12 bob b@x") fresh_statement)
statement_prepare-IsRow_example =
    statement_prepare-IsRow (bytes "insert 12 bob b@x") fresh_statement
      (record { id = omega arith; username = refl; email = refl })

-- The line `.x`.
dot_x-IsText : IsText (46 ∷ 120 ∷ [])
dot_x-IsText =
    more 46 (120 ∷ []) (λ e. omega (arith, e)) (λ e. omega (arith, e))
      (more 120 [] (λ e. omega (arith, e)) (λ e. omega (arith, e)) nothing)

input_read-text_example :
    ((rest : List ℕ) → input_read (46 ∷ 120 ∷ 10 ∷ rest) ≡ some (46 ∷ 120 ∷ [], rest))
    × ((c : ℕ) → c ≢ 10 → input_read (46 ∷ 120 ∷ c ∷ []) ≡ some (46 ∷ 120 ∷ [], []))
input_read-text_example = input_read-text (46 ∷ 120 ∷ []) dot_x-IsText

repl_loop-LoopEnd_example :
    LoopEnd env 50
      (λ _. fresh_statement)
      (bytes "select")
      no_pages
      (repl_loop env 50 (λ _. fresh_statement) 7 (bytes "select") no_pages)
repl_loop-LoopEnd_example =
    repl_loop-LoopEnd env 50 (λ _. fresh_statement) 7 (bytes "select") no_pages (omega arith)

-- Four pages, of which page 3 is cached.
four_pages : Pager
four_pages = put 3 two_keys (record no_pages { num_pages = 4 })

database_close-Delivers_example :
    (t u : Pager) × (database_close env false four_pages ≡ ok close_success t)
    × (pager_open (some t.file_descriptor) ≡ some u)
    × ((k : ℕ) (p : Page) → k < 4 → four_pages.pages k ≡ some p → Delivers env u k p)
unfolding four_pages
database_close-Delivers_example =
    database_close-Delivers env four_pages reads reads reads (omega arith) refl (omega arith)

database_close-IsClosed_example : IsClosed env false four_pages
database_close-IsClosed_example = database_close-IsClosed env false four_pages

session-durable_example :
    (s t c u w : Pager) × (database_open env (some empty_file) ≡ some (ok tt s))
    × (execute_inserts env 50 two_rows s ≡ ok (answers two_rows []) t)
    × (database_close env false t ≡ ok close_success c)
    × (database_open env (some c.file_descriptor) ≡ some (ok tt u))
    × (statement_execute_select env 50 root_page_num u
        ≡ ok (rows (apply_inserts two_rows []), success) w)
session-durable_example =
    session-durable env 50 empty_file two_rows refl reads reads reads (omega arith) (omega arith)
      (omega arith)
