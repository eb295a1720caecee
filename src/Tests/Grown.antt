-- ===== src/Tests/Grown.antt =====
-- Inserts and selects on the tree that the first split leaves.
use gnaro.Base.{◌+◌, ◌<◌, ◌≡◌, refl, arith, some, false, List, length}
use gnaro.Memory.{Pager, ok}
use gnaro.Memory.Bytes.{Page, word, set_word, blit, word_byte}
use gnaro.Row.RoundTrip.{stored}
use gnaro.Btree.Layout.{leaf_max_cells}
use gnaro.Btree.Leaf.{Cursor, leaf_num_cells, leaf_next, leaf_cell}
use gnaro.Btree.Leaf.View.{Cell, cells, cells_from, cell_at, key_at}
use gnaro.Btree.Insert.Listing.{insert_sorted}
use gnaro.Cursor.Descent.{IsInternal, IsFound}
use gnaro.Statement.Prepare.{Statement, insert}
use gnaro.Statement.Execute.{success, statement_execute_insert, statement_execute_select}
use gnaro.Table.Single.{has_key}
use gnaro.Table.Select.{rows}
use gnaro.Table.Search.{IsTable}
use gnaro.Table.Search.Start.{grown-IsTable}
use gnaro.Table.Search.Execute.{Coincides, Inserts, execute_insert-Inserts, execute_insert-IsTable}
use gnaro.Tests.Data.{env, user}
use gnaro.Tests.Split.{full_page, grown, next}

abbrev content : List Cell
content = insert_sorted (record { key = 15; row = stored (user 15) }) (cells full_page)

table : IsTable grown.0 1 0 content
table =
    grown-IsTable grown.0 0 2 1 (word full_page leaf_next) content grown.2 next (λ e. omega arith)

abbrev insert_17 : Statement
insert_17 = record { type = insert; row_to_insert = user 17 }

absent_17 : has_key 17 content ≡ false
unfolding has_key insert_sorted cells cells_from cell_at key_at full_page word set_word blit
    word_byte leaf_cell
absent_17 = refl

execute_insert-Inserts_example :
    (cursor : Cursor) × (r : Page) × (f : IsFound grown.0 17 0 cursor) × IsInternal grown.0 0 r
    × Inserts env 9 0 insert_17 grown.0 cursor r f.page
execute_insert-Inserts_example =
    execute_insert-Inserts env 0 9 0 insert_17 grown.0 table.tree (omega arith) (omega arith)

execute_insert-IsTable_example :
    (cursor : Cursor) × (r : Page) × (f : IsFound grown.0 17 0 cursor) × (grown.0.pages 0 ≡ some r)
    × ((Coincides r cursor 17 → ⊥)
        → word f.page leaf_num_cells < leaf_max_cells
        → (t : Pager) × (statement_execute_insert env 50 0 insert_17 grown.0 ≡ ok success t)
          × IsTable t 1 0 (insert_sorted (record { key = 17; row = stored (user 17) }) content)
          × (length content + 1 < 50
              → statement_execute_select env 50 0 t
                ≡ ok
                    (
                      rows (insert_sorted (record { key = 17; row = stored (user 17) }) content),
                      success,
                    )
                    t))
execute_insert-IsTable_example =
    execute_insert-IsTable env 0 50 0 insert_17 grown.0 content table (omega arith) (omega arith)
      absent_17
