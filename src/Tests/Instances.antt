-- ===== src/Tests/Instances.antt =====
-- The theorems on nodes and on tables of one leaf at inputs that meet their hypotheses.
use gnaro.Base.{
  ℕ, zero, suc, ◌+◌, ◌^◌, ◌≤◌, ◌<◌, ◌≡◌, refl, ◌⊎◌, none, some, [], ◌∷◌, arith, true, false, length,
  ap,
}
use gnaro.Memory.{Pager, ok, ◌>>◌, put, update}
use gnaro.Memory.Bytes.{Page, word, set_word, blit, word_byte}
use gnaro.Row.{Row, IsRow, c_string, row_serialize, row_deserialize, row_size}
use gnaro.Row.RoundTrip.{row_deserialize-row_serialize, stored}
use gnaro.Btree.Layout.{leaf_max_cells}
use gnaro.Btree.Leaf.{Cursor, leaf_find, leaf_num_cells}
use gnaro.Btree.Leaf.View.{cells, IsPlace}
use gnaro.Btree.Leaf.Find.{leaf_find-IsPlace}
use gnaro.Btree.Internal.{internal_cell, internal_find_child, internal_num_keys}
use gnaro.Btree.Internal.View as Internal
use gnaro.Btree.Internal.Find.{internal_find_child-IsChildPlace}
use gnaro.Btree.Insert.{leaf_insert}
use gnaro.Btree.Insert.Listing.{insert_sorted}
use gnaro.Btree.Insert.Sorted.{leaf_insert-insert_sorted}
use gnaro.Database.{root_page_num, database_open}
use gnaro.Statement.Text.{atoi, starts_with}
use gnaro.Statement.Prepare.{bytes, insert}
use gnaro.Statement.Prepare.Words.{four_words}
use gnaro.Statement.Execute.{
  success, duplicate_key, statement_execute_insert, statement_execute_select,
}
use gnaro.Table.Single.{IsSingle, has_key}
use gnaro.Table.Refine.{InsertsInto, execute_insert-insert_sorted}
use gnaro.Table.Select.{rows, execute_select-rows}
use gnaro.Table.Open.{Shows, database_open-Shows}
use gnaro.Table.Session.{
  answer, apply_insert, answers, apply_inserts, execute_inserts, length-cells, inserts-Shows,
  session-sorted,
}
use gnaro.Repl.{run_line, executed}
use gnaro.Repl.Insert.{run_line-insert}
use gnaro.Tests.Data.{
  env, empty_file, user, no_pages, blank, fresh_statement, two_keys, two_keys_state, reads,
  two_rows,
}
use gnaro.Tests.Text.{insert-IsWord, id-IsWord, name-IsWord, mail-IsWord}

user-IsRow : (k : ℕ) → k < 2 ^ 32 → IsRow (user k)
user-IsRow k h = record { id = h; username = refl; email = refl }

row_deserialize-row_serialize_example :
    (r' : Row) × (q : Page) × ((row_serialize (user 7) 2 100 >> row_deserialize 2 100)
        (put 2 blank no_pages)
      ≡ ok r' (put 2 q (put 2 blank no_pages)))
    × (r'.id ≡ 7)
    × (c_string r'.username ≡ c_string (user 7).username)
    × (c_string r'.email ≡ c_string (user 7).email)
    × ((a : ℕ) → ((a < 100) ⊎ (100 + row_size ≤ a)) → q a ≡ 0)
unfolding update
row_deserialize-row_serialize_example =
    row_deserialize-row_serialize (user 7) 2 100 blank (put 2 blank no_pages)
      (user-IsRow 7 (omega arith)) refl (omega arith)

-- The table after two inserts: its state, its root page and its invariant.
opening : (t : Pager) × (database_open env (some empty_file) ≡ some (ok tt t)) × Shows t []
opening = database_open-Shows env empty_file refl reads

table :
    (t : Pager) × (execute_inserts env 50 two_rows opening.0 ≡ ok (answers two_rows []) t)
    × Shows t (apply_inserts two_rows [])
table = inserts-Shows env 50 two_rows opening.0 [] opening.2 (omega arith) (omega arith)

table_state : Pager
table_state = table.0

table_page : Page
table_page = table.2.page

table-IsSingle : IsSingle table_state table_page
unfolding table_state table_page
table-IsSingle = table.2.single

leaf_find-IsPlace_example :
    (c : ℕ) × (leaf_find env 4 root_page_num table_state
      ≡ ok (record { page_num = root_page_num; cell_num = c; end_of_table = none }) table_state)
    × IsPlace table_page (word table_page leaf_num_cells) 4 c
leaf_find-IsPlace_example =
    leaf_find-IsPlace env table_state table_page root_page_num 4 (omega arith) table-IsSingle.cached
      table-IsSingle.few table-IsSingle.ascending

execute_insert-insert_sorted_example :
    ((has_key 4 (cells table_page) ≡ true)
      × (statement_execute_insert env 50 root_page_num
            (record { type = insert; row_to_insert = user 4 })
            table_state
          ≡ ok duplicate_key table_state))
    ⊎ ((has_key 4 (cells table_page) ≡ false)
        × (word table_page leaf_num_cells < leaf_max_cells
            → InsertsInto env 50
                (record { type = insert; row_to_insert = user 4 })
                table_state
                (cells table_page)))
execute_insert-insert_sorted_example =
    execute_insert-insert_sorted env 50 (record { type = insert; row_to_insert = user 4 })
      table_state table_page table-IsSingle (omega arith)

execute_select-rows_example :
    statement_execute_select env 50 root_page_num table_state
    ≡ ok (rows (cells table_page), success) table_state
execute_select-rows_example =
    execute_select-rows env 50 table_state table_page table-IsSingle
      (omega (arith, table-IsSingle.few))

session-sorted_example :
    (s t : Pager) × (database_open env (some empty_file) ≡ some (ok tt s))
    × (execute_inserts env 50 (user 5 ∷ user 3 ∷ user 5 ∷ []) s
        ≡ ok (success ∷ success ∷ duplicate_key ∷ []) t)
    × (statement_execute_select env 50 root_page_num t
        ≡ ok (rows (apply_inserts (user 5 ∷ user 3 ∷ user 5 ∷ []) []), success) t)
unfolding answers apply_inserts has_key insert_sorted
session-sorted_example =
    session-sorted env 50 empty_file (user 5 ∷ user 3 ∷ user 5 ∷ []) refl reads (omega arith)
      (omega arith) (omega arith)

database_open-Shows_example :
    (t : Pager) × (database_open env (some empty_file) ≡ some (ok tt t)) × Shows t []
database_open-Shows_example = database_open-Shows env empty_file refl reads

two_keys-Ascending : Internal.Ascending two_keys 2
unfolding Internal.separator
two_keys-Ascending zero zero le lt = omega arith
two_keys-Ascending zero (suc zero) le lt =
    unfold word set_word blit word_byte internal_cell in omega arith
two_keys-Ascending (suc zero) (suc zero) le lt = omega arith
two_keys-Ascending zero (suc (suc j)) le lt = absurd (omega arith)
two_keys-Ascending (suc i) zero le lt = absurd (omega arith)
two_keys-Ascending (suc zero) (suc (suc j)) le lt = absurd (omega arith)
two_keys-Ascending (suc (suc i)) (suc zero) le lt = absurd (omega arith)
two_keys-Ascending (suc (suc i)) (suc (suc j)) le lt = absurd (omega arith)

two_keys_count : word two_keys internal_num_keys ≡ 2
unfolding word set_word blit word_byte
two_keys_count = refl

internal_find_child-IsChildPlace_example :
    (c : ℕ) × (internal_find_child 3 15 two_keys_state ≡ ok c two_keys_state)
    × Internal.IsChildPlace two_keys (word two_keys internal_num_keys) 15 c
unfolding update
internal_find_child-IsChildPlace_example =
    internal_find_child-IsChildPlace 3 15 two_keys_state two_keys refl
      (omega (arith, two_keys_count)) (rw two_keys_count two_keys-Ascending)

-- The place of the key 4 in the table's page.
place :
    (c : ℕ) × (leaf_find env 4 root_page_num table_state
      ≡ ok (record { page_num = root_page_num; cell_num = c; end_of_table = none }) table_state)
    × IsPlace table_page (word table_page leaf_num_cells) 4 c
place =
    leaf_find-IsPlace env table_state table_page root_page_num 4 (omega arith) table-IsSingle.cached
      table-IsSingle.few table-IsSingle.ascending

table_room : word table_page leaf_num_cells < leaf_max_cells
unfolding table_page apply_inserts has_key insert_sorted
table_room = omega (arith, length-cells table.2.page, ap (length {0}) table.2.content)

cursor : Cursor
cursor = record { page_num = root_page_num; cell_num = place.0; end_of_table = none }

leaf_insert-insert_sorted_example :
    (q : Page) × (leaf_insert env 50 root_page_num cursor 4 (user 4) table_state
      ≡ ok tt (put root_page_num q table_state))
    × (cells q ≡ insert_sorted (record { key = 4; row = stored (user 4) }) (cells table_page))
    × ((a : ℕ) → a < 14 → ((a < 6) ⊎ (10 ≤ a)) → q a ≡ table_page a)
unfolding cursor
leaf_insert-insert_sorted_example =
    leaf_insert-insert_sorted env 50 root_page_num cursor 4 (user 4) table_page table_state
      (omega arith) table-IsSingle.cached table_room place.2 (omega arith) (omega arith)

run_line-insert_example :
    (t : Pager) × (r : Row) × (run_line env 50 fresh_statement
        (four_words (bytes "insert") (bytes "12") (bytes "bob") (bytes "b@x"))
        opening.0
      ≡ ok (some (executed [] (answer r []))) t)
    × Shows t (apply_insert r [])
    × (r.id ≡ 12)
    × (c_string r.username ≡ c_string (bytes "bob"))
    × (c_string r.email ≡ c_string (bytes "b@x"))
unfolding starts_with atoi
run_line-insert_example =
    run_line-insert env 50 (bytes "insert") (bytes "12") (bytes "bob") (bytes "b@x") 12
      fresh_statement opening.0 [] refl insert-IsWord id-IsWord name-IsWord mail-IsWord refl
      (omega arith) (omega arith) opening.2 (omega arith)
