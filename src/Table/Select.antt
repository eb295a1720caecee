-- ===== src/Table/Select.antt =====
-- `statement_execute_select` on a table of one leaf returns the rows of its cells in order.
use gnaro.Base.{
  ℕ, zero, suc, ◌+◌, ◌<◌, ◌≡◌, refl, inl, inr, some, arith, ◌==◌, true, false, Bool-cases, List, [],
  ==→eq, map, le→leb, lt→not_leb,
}
use gnaro.Memory.{Pager, ok}
use gnaro.Memory.Bytes.{Page, word}
use gnaro.Memory.Laws.{put_self, load32-ok}
use gnaro.Row.{Row, row_deserialize}
use gnaro.Row.RoundTrip.{row_at, row_deserialize-put}
use gnaro.Pager.{Env}
use gnaro.Pager.Cache.{get_page-cached}
use gnaro.Btree.Layout.{leaf_max_cells}
use gnaro.Btree.Node.{u32}
use gnaro.Btree.Leaf.{Cursor, leaf_num_cells, leaf_next, leaf_value}
use gnaro.Btree.Leaf.View.{cell_at, Cell, cells_from, cells, leaf_cell_fits}
use gnaro.Cursor.{cursor_start, cursor_advance, cursor_value}
use gnaro.Statement.Execute.{success, select_loop, statement_execute_select}
use gnaro.Database.{root_page_num}
use gnaro.Table.Single.{IsSingle}
use gnaro.Table.Refine.{cursor_find_key-single}

abbrev pub rows : List Cell → List Row
rows xs = map (λ (x : Cell). x.row) xs

abbrev at : (cell_num : ℕ) → Cursor
at i = record { page_num = root_page_num; cell_num = i; end_of_table = some false }

suc_ne_zero : (m : ℕ) → (suc m == 0) ≡ false
suc_ne_zero m = ground arith

-- At the end of the table the loop stops.
pub select_loop_end :
    (env : Env) (fuel page_num cell_num : ℕ) (s : Pager)
    → 0 < fuel
    → select_loop env fuel
        (record { page_num = page_num; cell_num = cell_num; end_of_table = some true })
        s
      ≡ ok [] s
unfolding select_loop
select_loop_end env zero page_num cell_num s h = absurd (omega arith)
select_loop_end env (suc fuel) page_num cell_num s h = refl

module _ (env : Env) (s : Pager) (p : Page) (v : IsSingle s p) where
  open v use {cached}

  deserialize_at :
      (i : ℕ)
      → i < leaf_max_cells
      → row_deserialize root_page_num (leaf_value i) s ≡ ok (row_at p (leaf_value i)) s
  deserialize_at i h =
      rw (put_self root_page_num p s cached) at
        (row_deserialize-put root_page_num (leaf_value i) p s (omega (arith, leaf_cell_fits i h)))

  value_at : (i : ℕ) → cursor_value env (at i) s ≡ ok (root_page_num, leaf_value i) s
  unfolding cursor_value
  value_at i = rw (get_page-cached env root_page_num s (omega arith) cached)

  advance_inside :
      (i : ℕ) → suc i < word p leaf_num_cells → cursor_advance env (at i) s ≡ ok (at (suc i)) s
  unfolding cursor_advance
  advance_inside i h =
      let wrap : u32 (i + 1) ≡ suc i = omega (arith, v.few) in
      rw (
        get_page-cached env root_page_num s (omega arith) cached,
        load32-ok root_page_num s cached leaf_num_cells (omega arith),
        wrap,
        lt→not_leb (word p leaf_num_cells) (suc i) h,
      )

  -- Behind the last cell, with no sibling, the table ends.
  advance_last :
      (i : ℕ)
      → suc i ≡ word p leaf_num_cells
      → cursor_advance env (at i) s
        ≡ ok (record { page_num = root_page_num; cell_num = suc i; end_of_table = some true }) s
  unfolding cursor_advance
  advance_last i h =
      let wrap : u32 (i + 1) ≡ suc i = omega (arith, v.few) in
      rw (
        get_page-cached env root_page_num s (omega arith) cached,
        load32-ok root_page_num s cached leaf_num_cells (omega arith),
        wrap,
        le→leb (word p leaf_num_cells) (suc i) (omega arith),
        load32-ok root_page_num s cached leaf_next (omega arith),
        v.next,
      )

  -- With `m + 1` cells from `i` on, the loop returns their rows.
  select_loop-rows :
      (fuel m i : ℕ)
      → i + suc m ≡ word p leaf_num_cells
      → suc m < fuel
      → select_loop env fuel (at i) s ≡ ok (rows (cells_from p i (suc m))) s
  unfolding select_loop cells_from cell_at
  select_loop-rows zero m i e h = absurd (omega arith)
  select_loop-rows (suc zero) m i e h = absurd (omega arith)
  select_loop-rows (suc (suc k)) zero i e h =
      rw (value_at i, deserialize_at i (omega (arith, v.few)), advance_last i (omega arith))
  select_loop-rows (suc (suc k)) (suc m) i e h = rw (
    value_at i,
    deserialize_at i (omega (arith, v.few)),
    advance_inside i (omega arith),
    select_loop-rows (suc k) m (suc i) (omega arith) (omega arith),
  )

  start_single :
      (fuel : ℕ)
      → cursor_start env fuel root_page_num s
        ≡ ok
            (record {
              page_num = root_page_num;
              cell_num = 0;
              end_of_table = some (word p leaf_num_cells == 0);
            })
            s
  unfolding cursor_start
  start_single fuel =
      let (c, runs, place) = cursor_find_key-single env fuel 0 s p v in
      let first : c ≡ 0 = elim (Bool-cases (c == 0)) [
        | inl e ↦ ==→eq c 0 e
        | inr e ↦ let negative = place.below 0 (ground arith) in absurd (omega arith)
      ] in
      rw (
        runs,
        get_page-cached env root_page_num s (omega arith) cached,
        load32-ok root_page_num s cached leaf_num_cells (omega arith),
        first,
      )

-- On a table of one leaf a select with more fuel than there are cells returns, changes nothing, and
-- prints the rows of the cells in ascending order of their keys, each once.
pub execute_select-rows :
    (env : Env) (fuel : ℕ) (s : Pager) (p : Page)
    → IsSingle s p
    → word p leaf_num_cells < fuel
    → statement_execute_select env fuel root_page_num s ≡ ok (rows (cells p), success) s
unfolding statement_execute_select cells
execute_select-rows env fuel s p v h = count (word p leaf_num_cells) refl
  where
    count :
        (n : ℕ)
        → word p leaf_num_cells ≡ n
        → statement_execute_select env fuel root_page_num s
          ≡ ok (rows (cells_from p 0 (word p leaf_num_cells)), success) s
    count zero e =
        rw
          (start_single env s p v fuel, e, select_loop_end env fuel root_page_num 0 s (omega arith))
    count (suc m) e = rw (
      start_single env s p v fuel,
      e,
      suc_ne_zero m,
      select_loop-rows env s p v fuel m 0 (omega arith) (omega arith),
    )
