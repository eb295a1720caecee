-- ===== src/Table/Refine.antt =====
-- `statement_execute_insert` and `statement_execute_select` on a table whose root is a leaf refine
-- a list of cells that ascends by key.
use gnaro.Base.{
  ℕ, ◌+◌, ◌^◌, ◌<◌, ◌≡◌, refl, ◌≢◌, ◌∙◌, inl, inr, some, none, arith, ltb, true, false, ◌⊎◌,
  Bool-cases, List, ==_refl, ne→not_==, lt→ltb,
}
use gnaro.Memory.{Pager, ok, put}
use gnaro.Memory.Bytes.{Page, word, word-ext}
use gnaro.Memory.Laws.{put_self, update_self, load32-ok}
use gnaro.Row.RoundTrip.{stored}
use gnaro.Pager.{Env}
use gnaro.Pager.Cache.{get_page-cached}
use gnaro.Btree.Layout.{leaf_max_cells}
use gnaro.Btree.Leaf.{leaf_num_cells, leaf_next, leaf_key}
use gnaro.Btree.Leaf.View.{node_get_type-leaf, key_at, Cell, cells, IsPlace, leaf_cell_fits}
use gnaro.Btree.Leaf.Find.{leaf_find-IsPlace}
use gnaro.Btree.Insert.{leaf_insert}
use gnaro.Btree.Insert.Cells.{inserted, num_cells-inserted, inserted_header}
use gnaro.Btree.Insert.Listing.{insert_sorted}
use gnaro.Btree.Insert.Sorted.{leaf_insert-inserted, cells-inserted}
use gnaro.Cursor.{cursor_find_key}
use gnaro.Statement.Prepare.{Statement}
use gnaro.Statement.Execute.{success, duplicate_key, statement_execute_insert}
use gnaro.Database.{root_page_num}
use gnaro.Table.Single.{IsSingle, has_key, place_decides, inserted-Ascending}

pub cursor_find_key-single :
    (env : Env) (fuel key : ℕ) (s : Pager) (p : Page)
    → IsSingle s p
    → (c : ℕ) × (cursor_find_key env fuel root_page_num key s
        ≡ ok (record { page_num = root_page_num; cell_num = c; end_of_table = none }) s)
      × IsPlace p (word p leaf_num_cells) key c
unfolding cursor_find_key
cursor_find_key-single env fuel key s p v =
    let (c, runs, place) =
      leaf_find-IsPlace env s p root_page_num key (omega arith) v.cached v.few v.ascending in
    (
      c,
      rw
          (
            get_page-cached env root_page_num s (omega arith) v.cached,
            node_get_type-leaf root_page_num s v.cached v.type,
            runs,
          )
          refl,
      place,
    )

-- What an insert does to a table of one leaf that holds `xs`.
abbrev pub InsertsInto : Env → ℕ → Statement → Pager → List Cell → Type 0
InsertsInto env fuel statement s xs =
    (q : Page) × (statement_execute_insert env fuel root_page_num statement s
      ≡ ok success (put root_page_num q s))
    × IsSingle (put root_page_num q s) q
    × (cells q
        ≡ insert_sorted
            (record { key = statement.row_to_insert.id; row = stored statement.row_to_insert }) xs)

module _ (env : Env) (fuel : ℕ) (statement : Statement) (s : Pager) (p : Page) (v : IsSingle s p)
    (c : ℕ)
    (found : cursor_find_key env fuel root_page_num statement.row_to_insert.id s
      ≡ ok (record { page_num = root_page_num; cell_num = c; end_of_table = none }) s)
    (place : IsPlace p (word p leaf_num_cells) statement.row_to_insert.id c) where
  open v use {cached}

  execute_insert-duplicate :
      c < word p leaf_num_cells
      → key_at p c ≡ statement.row_to_insert.id
      → statement_execute_insert env fuel root_page_num statement s ≡ ok duplicate_key s
  unfolding statement_execute_insert key_at
  execute_insert-duplicate inside same = rw (
    get_page-cached env root_page_num s (omega arith) cached,
    load32-ok root_page_num s cached leaf_num_cells (omega arith),
    found,
    lt→ltb c (word p leaf_num_cells) inside,
    load32-ok root_page_num s cached (leaf_key c)
        (omega (arith, leaf_cell_fits c (omega (arith, v.few)))),
    same,
    ==_refl statement.row_to_insert.id,
  )

  execute_insert-absent :
      ((j : ℕ) → j < word p leaf_num_cells → key_at p j ≢ statement.row_to_insert.id)
      → word p leaf_num_cells < leaf_max_cells
      → statement_execute_insert env fuel root_page_num statement s
        ≡ ok success (
            put root_page_num
              (inserted p
                (word p leaf_num_cells)
                c
                statement.row_to_insert.id
                statement.row_to_insert)
              s)
  unfolding statement_execute_insert key_at
  execute_insert-absent absent room =
      rw
        (
          get_page-cached env root_page_num s (omega arith) cached,
          load32-ok root_page_num s cached leaf_num_cells (omega arith),
          found,
        )
        (elim (Bool-cases (ltb c (word p leaf_num_cells))) [
          | inl inside ↦ rw (
            inside,
            load32-ok root_page_num s cached (leaf_key c)
                (omega (arith, leaf_cell_fits c (ground (arith, v.few)))),
            ne→not_== (word p (leaf_key c)) statement.row_to_insert.id (absent c (ground arith)),
            stores,
          )
          | inr outside ↦ rw (outside, stores)
        ])
    where
      key : ℕ
      key = statement.row_to_insert.id

      stores :
          leaf_insert env fuel root_page_num
            (record { page_num = root_page_num; cell_num = c; end_of_table = none })
            key
            statement.row_to_insert
            s
          ≡ ok tt (
              put root_page_num
                (inserted p (word p leaf_num_cells) c key statement.row_to_insert)
                s)
      stores = rw (put_self root_page_num p s cached) at (
          leaf_insert-inserted env fuel root_page_num
            (record { page_num = root_page_num; cell_num = c; end_of_table = none }) key
            statement.row_to_insert p s (omega arith) place.within room)

  inserted-IsSingle :
      ((j : ℕ) → j < word p leaf_num_cells → key_at p j ≢ statement.row_to_insert.id)
      → word p leaf_num_cells < leaf_max_cells
      → statement.row_to_insert.id < 2 ^ 32
      → (let q =
            inserted p
              (word p leaf_num_cells)
              c
              statement.row_to_insert.id
              statement.row_to_insert in
          IsSingle (put root_page_num q s) q)
  inserted-IsSingle absent room fits =
      let key = statement.row_to_insert.id in
      let row = statement.row_to_insert in
      let n = word p leaf_num_cells in
      let q = inserted p n c key row in
      let header = inserted_header p n c key row place.within room in
      let count = num_cells-inserted p n c key row place.within room in
      record {
        cached = update_self s.pages root_page_num (some q);
        type = header 0 (omega arith) (inl (omega arith)) ∙ v.type;
        root_mark = header 1 (omega arith) (inl (omega arith)) ∙ v.root_mark;
        few = rw count (omega arith);
        ascending =
            rw count (inserted-Ascending p n c key row room place v.ascending absent fits fits);
        next =
            word-ext q p leaf_next leaf_next
              (λ k lt. header (leaf_next + k) (omega arith) (inr (omega arith)))
            ∙ v.next;
      }

-- On a table of one leaf an insert of an id that the table holds answers `duplicate_key` and changes
-- nothing, also if the leaf is full; an insert of another id, if the leaf has room, succeeds, keeps
-- the invariant, and the table then holds the sorted insertion of the stored row.
pub execute_insert-insert_sorted :
    (env : Env) (fuel : ℕ) (statement : Statement) (s : Pager) (p : Page)
    → IsSingle s p
    → statement.row_to_insert.id < 2 ^ 32
    → ((has_key statement.row_to_insert.id (cells p) ≡ true)
        × (statement_execute_insert env fuel root_page_num statement s ≡ ok duplicate_key s))
      ⊎ ((has_key statement.row_to_insert.id (cells p) ≡ false)
          × (word p leaf_num_cells < leaf_max_cells → InsertsInto env fuel statement s (cells p)))
execute_insert-insert_sorted env fuel statement s p v fits =
    let key = statement.row_to_insert.id in
    let (c, runs, place) = cursor_find_key-single env fuel key s p v in
    elim (place_decides p key c v.ascending place) [
      | inl (inside, same, has) ↦
          inl (has, execute_insert-duplicate env fuel statement s p v c runs place inside same)
      | inr (absent, hasnt) ↦ inr (
        hasnt,
        λ room. (
          inserted p (word p leaf_num_cells) c key statement.row_to_insert,
          execute_insert-absent env fuel statement s p v c runs place absent room,
          inserted-IsSingle env fuel statement s p v c runs place absent room fits,
          cells-inserted p (word p leaf_num_cells) c key statement.row_to_insert room place fits
              fits refl,
        ),
      )
    ]
