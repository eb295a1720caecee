-- ===== src/Table/FirstSplit.antt =====
-- A session on a new file up to the insert that splits the root, and the select behind it.
use gnaro.Base.{
  ℕ, suc, ◌+◌, ◌^◌, ◌≤◌, ◌<◌, ◌≡◌, ◌∙◌, ap, arith, some, none, true, false, List, [], ◌∷◌, length,
  inl, inr, Bool-cases, ltb,
}
use mathlib.Core.Path.{subst}
use gnaro.Memory.{File, Pager, ok}
use gnaro.Memory.Bytes.{Page, word}
use gnaro.Row.{Row}
use gnaro.Row.RoundTrip.{stored}
use gnaro.Pager.{Env}
use gnaro.Btree.Leaf.{leaf_num_cells, leaf_next}
use gnaro.Btree.Layout.{leaf_max_cells}
use gnaro.Btree.Leaf.View.{Cell, cells, IsPlace}
use gnaro.Btree.Insert.Listing.{insert_sorted}
use gnaro.Btree.Insert.AllKeys.{AllKeys, AllKeys-insert_sorted, key_at-AllKeys}
use gnaro.Cursor.Descent.{IsLeaf}
use gnaro.Statement.Prepare.{insert}
use gnaro.Statement.Execute.{success, statement_execute_insert, statement_execute_select}
use gnaro.Database.{root_page_num, database_open}
use gnaro.Table.Single.{IsSingle, has_key, place_decides}
use gnaro.Table.Refine.{cursor_find_key-single, execute_insert-insert_sorted}
use gnaro.Table.Select.{rows}
use gnaro.Table.Open.{Shows, database_open-Shows}
use gnaro.Table.Session.{
  AllFit, apply_insert, apply_inserts, answer, answers, execute_inserts, inserts-Shows,
  insert-Shows, length-cells, length-insert_sorted, select-Shows,
}
use gnaro.Table.TwoLevels.{IsSearchTree, leaf_split_and_insert-IsSearchTree}
use gnaro.Table.Grow.{select-grown, leaf_insert-full, insert-stores}

-- Every id is one that `statement_prepare` lets through.
abbrev pub AllSmall : List Row → Type 0
AllSmall [] = Unit
AllSmall (r ∷ rs) = (r.id < 2 ^ 31) × AllSmall rs

AllSmall-AllFit : (rs : List Row) → AllSmall rs → AllFit rs
AllSmall-AllFit [] small = tt
AllSmall-AllFit (r ∷ rs) small = (omega arith, AllSmall-AllFit rs small.1)

small_keys :
    (rs : List Row) (xs : List Cell)
    → AllSmall rs
    → AllKeys (λ k. k < 2 ^ 31) xs
    → AllKeys (λ k. k < 2 ^ 31) (apply_inserts rs xs)
unfolding apply_inserts
small_keys [] xs small all = all
small_keys (r ∷ rs) xs small all =
    small_keys rs (apply_insert r xs) small.1 (elim (Bool-cases (has_key r.id xs)) [
      | inl has ↦ rw has all
      | inr hasnt ↦ rw hasnt (
          AllKeys-insert_sorted (λ k. k < 2 ^ 31) (record { key = r.id; row = stored r }) xs small.0
            all)
    ])

IsSingle-IsLeaf : (s : Pager) (p : Page) → IsSingle s p → IsLeaf s root_page_num p
IsSingle-IsLeaf s p v = record {
  small = omega arith;
  cached = v.cached;
  type = v.type;
  few = v.few;
  ascending = v.ascending;
}

-- The insert of an absent id into a full table of one leaf succeeds and leaves a search tree.
insert-IsSearchTree :
    (env : Env) (fuel : ℕ) (r : Row) (s : Pager) (xs : List Cell) (v : Shows s xs)
    → ((o : ℕ) → env.read_fails o ≡ false)
    → length xs ≡ leaf_max_cells
    → AllKeys (λ k. k < 2 ^ 31) xs
    → has_key r.id xs ≡ false
    → r.id < 2 ^ 31
    → (t : Pager) × (statement_execute_insert env
          (suc fuel)
          root_page_num
          (record { type = insert; row_to_insert = r })
          s
        ≡ ok success t)
      × IsSearchTree t root_page_num
          (s.num_pages + 1)
          s.num_pages
          (word v.page leaf_next)
          (insert_sorted (record { key = r.id; row = stored r }) xs)
insert-IsSearchTree env fuel r s xs v reads many small hasnt fits =
    let p = v.page in
    let full : word p leaf_num_cells ≡ leaf_max_cells =
      omega (arith, length-cells p, ap (length {0}) v.content) in
    let (c, found, place) = cursor_find_key-single env (suc fuel) r.id s p v.single in
    let keys_small : AllKeys (λ k. k < 2 ^ 31) (cells p) = rw v.content small in
    elim (place_decides p r.id c v.single.ascending place) [
      | inl (_, _, has) ↦ let has' = rw v.content at has in absurd (clash hasnt has')
      | inr (absent, _) ↦
          let (t, splits, g) =
            leaf_split_and_insert-IsSearchTree env fuel
              (record { page_num = root_page_num; cell_num = c; end_of_table = none }) r.id r s p
              v.used (omega (arith, v.one)) reads (IsSingle-IsLeaf s p v.single)
              (ap s.pages v.one ∙ v.alone) v.single.root_mark full (omega (arith, v.single.next))
              (subst (λ n. IsPlace p n r.id c) full place)
              (λ i lt. key_at-AllKeys (λ k. k < 2 ^ 31) p i keys_small (omega arith))
              (λ i lt. absent i (omega arith)) fits (omega arith) in
          (
            t,
            insert-stores env (suc fuel) root_page_num
                (record { page_num = root_page_num; cell_num = c; end_of_table = none })
                (record { type = insert; row_to_insert = r }) s t p (omega arith) v.single.cached
                (omega (arith, place.within, v.single.few)) found (λ inside. absent c inside)
                (leaf_insert-full env (suc fuel) root_page_num
                  (record { page_num = root_page_num; cell_num = c; end_of_table = none })
                  (record { type = insert; row_to_insert = r }) s t p (omega arith) v.single.cached
                  full splits),
            subst
                (λ ys.
                  IsSearchTree t root_page_num (s.num_pages + 1) s.num_pages (word p leaf_next)
                    (insert_sorted (record { key = r.id; row = stored r }) ys))
                v.content g,
          )
    ]
  where
    clash : has_key r.id xs ≡ false → has_key r.id xs ≡ true → ⊥
    clash a b = cc

-- What one more insert and a select behind it answer on a table that shows `xs`.
abbrev pub GoesOn : Env → ℕ → Row → Pager → List Cell → Type 0
GoesOn env fuel r s xs =
    (t : Pager) × (statement_execute_insert env fuel root_page_num
        (record { type = insert; row_to_insert = r }) s
      ≡ ok (answer r xs) t)
    × (statement_execute_select env fuel root_page_num t ≡ ok (rows (apply_insert r xs), success) t)

insert-GoesOn :
    (env : Env) (fuel : ℕ) (r : Row) (s : Pager) (xs : List Cell)
    → Shows s xs
    → ((o : ℕ) → env.read_fails o ≡ false)
    → length xs ≤ leaf_max_cells
    → AllKeys (λ k. k < 2 ^ 31) xs
    → r.id < 2 ^ 31
    → leaf_max_cells + 1 < suc fuel
    → GoesOn env (suc fuel) r s xs
insert-GoesOn env fuel r s xs v reads few small fits enough =
    elim (Bool-cases (ltb (length xs) leaf_max_cells)) [
      | inl room ↦
          let (t, runs, v') = insert-Shows env (suc fuel) r s xs v (omega arith) (ground arith) in
          (t, runs, select-Shows env (suc fuel) t (apply_insert r xs) v' (omega arith))
      | inr full ↦
          let many : length xs ≡ leaf_max_cells = ground arith in
          elim (Bool-cases (has_key r.id xs)) [
            | inl has ↦
                elim (execute_insert-insert_sorted env (suc fuel)
                  (record { type = insert; row_to_insert = r }) s v.page v.single (omega arith)) [
                    | inl (_, runs) ↦
                        (s, rw has runs, rw has (select-Shows env (suc fuel) s xs v (omega arith)))
                    | inr (hasnt, _) ↦ let hasnt' = rw v.content at hasnt in absurd (cc)
                  ]
            | inr hasnt ↦
                let (t, runs, g) =
                  insert-IsSearchTree env fuel r s xs v reads many small hasnt fits in
                (
                  t,
                  rw hasnt runs,
                  rw hasnt (
                      select-grown env (suc fuel) t root_page_num (s.num_pages + 1) s.num_pages
                        (word v.page leaf_next)
                        (insert_sorted (record { key = r.id; row = stored r }) xs) g v.single.next
                        (λ e. omega (arith, v.one)) (omega arith)
                        (omega (
                          arith,
                          length-insert_sorted (record { key = r.id; row = stored r }) xs,
                        ))),
                )
          ]
    ]

-- From an empty file, where reading does not fail, with fuel of more than 14: the database opens;
-- at most 13 inserts of rows with ids below `2 ^ 31`, and then one more, are all answered as the
-- sorted reference answers them, a repeated id by `duplicate_key`, also if the last one splits the
-- root; and the select behind them prints the rows of the reference, in order.
pub session-GoesOn :
    (env : Env) (fuel : ℕ) (fd : File) (rs : List Row) (r : Row)
    → fd.size ≡ 0
    → ((o : ℕ) → env.read_fails o ≡ false)
    → AllSmall rs
    → r.id < 2 ^ 31
    → length rs ≤ leaf_max_cells
    → leaf_max_cells + 1 < suc fuel
    → (s t : Pager) × (database_open env (some fd) ≡ some (ok tt s))
      × (execute_inserts env (suc fuel) rs s ≡ ok (answers rs []) t)
      × GoesOn env (suc fuel) r t (apply_inserts rs [])
session-GoesOn env fuel fd rs r empty reads small fits room enough =
    let (s, opens, v) = database_open-Shows env fd empty reads in
    let (t, runs, v') =
      inserts-Shows env (suc fuel) rs s [] v (AllSmall-AllFit rs small) (omega arith) in
    (
      s,
      t,
      opens,
      runs,
      insert-GoesOn env fuel r t (apply_inserts rs []) v' reads
          (omega (arith, length-cells v'.page, ap (length {0}) v'.content, v'.single.few))
          (small_keys rs [] small (unfold AllKeys in tt)) fits enough,
    )
