-- ===== src/Table/Search/Execute.antt =====
-- `statement_execute_insert` and `statement_execute_select` of src/statement.c on a table whose root
-- is internal, where the leaf of the key has room.
use gnaro.Base.{
  ℕ, suc, ◌+◌, ◌-◌, ◌⊎◌, ◌^◌, ◌≤◌, ◌<◌, ◌≡◌, ◌≢◌, arith, some, false, List, length, ==_refl, lt→ltb,
}
use gnaro.Memory.{Pager, ok, put}
use gnaro.Memory.Bytes.{Page, word}
use gnaro.Memory.Laws.{load32-ok}
use gnaro.Row.RoundTrip.{stored}
use gnaro.Pager.{Env}
use gnaro.Pager.Cache.{get_page-cached}
use gnaro.Btree.Layout.{leaf_max_cells}
use gnaro.Btree.Leaf.{Cursor, leaf_num_cells, leaf_key}
use gnaro.Btree.Leaf.View.{Cell, cells, key_at, leaf_cell_exact}
use gnaro.Btree.Insert.Listing.{insert_sorted}
use gnaro.Btree.Insert.Sorted.{leaf_insert-insert_sorted}
use gnaro.Cursor.{cursor_find_key}
use gnaro.Cursor.Descent.{IsTree, IsInternal, IsFound, cursor_find_key-IsFound}
use gnaro.Statement.Prepare.{Statement}
use gnaro.Statement.Execute.{
  success, duplicate_key, statement_execute_insert, statement_execute_select,
}
use gnaro.Table.Single.{has_key}
use gnaro.Table.Grow.{insert-stores}
use gnaro.Table.Search.{IsTable}
use gnaro.Table.Session.{length-insert_sorted}
use gnaro.Table.Select.{rows}
use gnaro.Table.SelectTree.{execute_select-Chain}
use gnaro.Table.Search.Place.{Descent-OnLeaf, IsTree-IsInternal}
use gnaro.Table.Search.Insert.{
  absent_keys, Chain-some, Chain-leaf, leaf-IsInserted, IsTable-inserted,
}

abbrev cell_of : Statement → Cell
cell_of statement = record {
  key = statement.row_to_insert.id;
  row = stored statement.row_to_insert;
}

-- The id stands where the test for a duplicate reads it: at the cursor's cell of the root, read as a
-- leaf.
abbrev pub Coincides : Page → Cursor → ℕ → Type 0
Coincides r cursor key =
    (cursor.cell_num < word r leaf_num_cells) × (key_at r cursor.cell_num ≡ key)

insert-Coincides :
    (env : Env) (fuel root : ℕ) (cursor : Cursor) (statement : Statement) (s : Pager) (r : Page)
    → root < 100
    → s.pages root ≡ some r
    → cursor.cell_num ≤ leaf_max_cells
    → cursor_find_key env fuel root statement.row_to_insert.id s ≡ ok cursor s
    → Coincides r cursor statement.row_to_insert.id
    → statement_execute_insert env fuel root statement s ≡ ok duplicate_key s
unfolding statement_execute_insert key_at
insert-Coincides env fuel root cursor statement s r small here few found (inside, same) = rw (
  get_page-cached env root s small here,
  load32-ok root s here leaf_num_cells (omega arith),
  found,
  lt→ltb cursor.cell_num (word r leaf_num_cells) inside,
  load32-ok root s here (leaf_key cursor.cell_num)
      (omega (arith, leaf_cell_exact cursor.cell_num (omega arith))),
  same,
  ==_refl statement.row_to_insert.id,
)

-- What an insert does under an internal root with page `r`, with the cursor in the leaf `p`.
abbrev pub Inserts : Env → (fuel root : ℕ) → Statement → Pager → Cursor → (r p : Page) → Type 0
Inserts env fuel root statement s cursor r p =
    (Coincides r cursor statement.row_to_insert.id
      → statement_execute_insert env fuel root statement s ≡ ok duplicate_key s)
    × ((Coincides r cursor statement.row_to_insert.id → ⊥)
        → word p leaf_num_cells < leaf_max_cells
        → (q : Page) × (statement_execute_insert env fuel root statement s
            ≡ ok success (put cursor.page_num q s))
          × (cells q ≡ insert_sorted (cell_of statement) (cells p))
          × ((a : ℕ) → a < 14 → ((a < 6) ⊎ (10 ≤ a)) → q a ≡ p a))

-- Under an internal root, an insert finds the leaf of the id. It answers `duplicate_key` if the id
-- stands at the cursor's cell of the root, read as if the root were a leaf, whether or not a row has
-- it; and otherwise, if the leaf has room, it succeeds and inserts the row into the leaf, whether or
-- not the leaf has the id already.
pub execute_insert-Inserts :
    (env : Env) (height fuel root : ℕ) (statement : Statement) (s : Pager)
    → IsTree s (suc height) root
    → suc height < fuel
    → statement.row_to_insert.id < 2 ^ 32
    → (cursor : Cursor) × (r : Page) × (f : IsFound s statement.row_to_insert.id root cursor)
      × IsInternal s root r
      × Inserts env fuel root statement s cursor r f.page
execute_insert-Inserts env height fuel root statement s tree enough fits =
    let key = statement.row_to_insert.id in
    let (cursor, found, f) = cursor_find_key-IsFound env s (suc height) fuel root key tree enough in
    let (r, d) = IsTree-IsInternal s height root tree in
    let few : cursor.cell_num ≤ leaf_max_cells = omega (arith, f.place.within, f.leaf.few) in
    (
      cursor,
      r,
      f,
      d,
      (
        insert-Coincides env fuel root cursor statement s r d.small d.cached few found,
        λ apart room.
            let (q, runs, content, header) =
              leaf_insert-insert_sorted env fuel root cursor key statement.row_to_insert f.page s
                f.leaf.small f.leaf.cached room f.place fits fits in
            (
              q,
              insert-stores env fuel root cursor statement s (put cursor.page_num q s) r d.small
                  d.cached few found (λ inside same. apart (inside, same)) runs,
              content,
              header,
            ),
      ),
    )

-- On a table a select prints its rows in ascending order of id, each once, if the fuel exceeds the
-- height of the tree and the number of rows.
execute_select-IsTable :
    (env : Env) (s : Pager) (height fuel root : ℕ) (xs : List Cell)
    → IsTable s height root xs
    → height < fuel
    → length xs < fuel
    → statement_execute_select env fuel root s ≡ ok (rows xs, success) s
execute_select-IsTable env s height fuel root xs v high enough =
    execute_select-Chain env s height fuel root v.first xs v.tree v.leftmost v.chain high enough

-- On a table with an internal root, the insert of an absent id whose leaf has room succeeds, unless
-- the id stands at the cursor's cell of the root read as a leaf; it keeps the table's invariant, and
-- the table then holds the sorted insertion of the stored row, which a select prints if the fuel
-- exceeds the number of its rows.
pub execute_insert-IsTable :
    (env : Env) (height fuel root : ℕ) (statement : Statement) (s : Pager) (xs : List Cell)
    → IsTable s (suc height) root xs
    → suc height < fuel
    → statement.row_to_insert.id < 2 ^ 32
    → has_key statement.row_to_insert.id xs ≡ false
    → (cursor : Cursor) × (r : Page) × (f : IsFound s statement.row_to_insert.id root cursor)
      × (s.pages root ≡ some r)
      × ((Coincides r cursor statement.row_to_insert.id → ⊥)
          → word f.page leaf_num_cells < leaf_max_cells
          → (t : Pager) × (statement_execute_insert env fuel root statement s ≡ ok success t)
            × IsTable t (suc height) root (insert_sorted (cell_of statement) xs)
            × (length xs + 1 < fuel
                → statement_execute_select env fuel root t
                  ≡ ok (rows (insert_sorted (cell_of statement) xs), success) t))
execute_insert-IsTable env height fuel root statement s xs v enough fits hasnt =
    let x = cell_of statement in
    let (cursor, r, f, d, (_, inserts)) =
      execute_insert-Inserts env height fuel root statement s v.tree enough fits in
    let k = cursor.page_num in
    let p = f.page in
    let on = v.chained k (Descent-OnLeaf s x.key k p f.leaf (suc height) root v.tree f.path) in
    let some_cells = Chain-some s k v.first p xs f.leaf.cached v.chain on in
    let absent = absent_keys x.key xs hasnt in
    let absent_here =
      Chain-leaf (λ a. a ≢ x.key) s k v.first p xs f.leaf.cached v.chain on absent in
    (
      cursor,
      r,
      f,
      d.cached,
      λ apart room.
          let (q, runs, content, header) = inserts apart room in
          let g =
            leaf-IsInserted s k cursor.cell_num p q x f.leaf some_cells room absent_here content
              header in
          let after =
            IsTable-inserted s k p q x g (suc height) root (word p leaf_num_cells - 1) xs v
              (omega arith) f.path absent in
          (
            put k q s,
            runs,
            after,
            λ many.
                execute_select-IsTable env (put k q s) (suc height) fuel root (insert_sorted x xs)
                  after enough (omega (arith, length-insert_sorted x xs)),
          ),
    )
