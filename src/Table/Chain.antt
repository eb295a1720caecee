-- ===== src/Table/Chain.antt =====
-- `select_loop` of src/statement.c over a chain of leaves.
use gnaro.Base.{
  ℕ, zero, suc, ◌+◌, ◌-◌, ◌<◌, ◌≡◌, ◌≢◌, ◌∙◌, sym, ap, some, arith, true, false, List, [], ◌++◌,
  length, length-append, le→leb, lt→not_leb, ne→not_==,
}
use mathlib.Core.List.{map-append, append-nil}
use gnaro.Memory.{Pager, ok}
use gnaro.Memory.Bytes.{Page, word}
use gnaro.Memory.Laws.{put_self, load32-ok}
use gnaro.Row.{Row, row_deserialize}
use gnaro.Row.RoundTrip.{row_at, row_deserialize-put}
use gnaro.Pager.{Env}
use gnaro.Pager.Cache.{get_page-cached}
use gnaro.Btree.Layout.{leaf_max_cells}
use gnaro.Btree.Node.{u32}
use gnaro.Btree.Leaf.{Cursor, leaf_num_cells, leaf_next, leaf_value}
use gnaro.Btree.Leaf.View.{cell_at, Cell, cells_from, cells, leaf_cell_fits}
use gnaro.Cursor.{cursor_advance, cursor_value}
use gnaro.Cursor.Descent.{IsLeaf}
use gnaro.Statement.Execute.{select_loop}
use gnaro.Table.Select.{rows, select_loop_end}
use gnaro.Table.Session.{length-cells}

-- The leaves from page `n` on, each with cells, linked by their successors up to one without; their
-- cells are `xs`.
pub data Chain (s : Pager) : ℕ → List Cell → Type 0 where
  last :
      (n : ℕ) (xs : List Cell) (p : Page)
      → IsLeaf s n p
      → 0 < word p leaf_num_cells
      → word p leaf_next ≡ 0
      → xs ≡ cells p
      → Chain s n xs
  link :
      (n : ℕ) (xs : List Cell) (p : Page) (ys : List Cell)
      → IsLeaf s n p
      → 0 < word p leaf_num_cells
      → word p leaf_next ≢ 0
      → Chain s (word p leaf_next) ys
      → xs ≡ cells p ++ ys
      → Chain s n xs

abbrev pub at : (n i : ℕ) → Cursor
at n i = record { page_num = n; cell_num = i; end_of_table = some false }

module _ (env : Env) (s : Pager) (n : ℕ) (p : Page) (l : IsLeaf s n p) where
  deserialize_at :
      (i : ℕ)
      → i < leaf_max_cells
      → row_deserialize n (leaf_value i) s ≡ ok (row_at p (leaf_value i)) s
  deserialize_at i h =
      rw (put_self n p s l.cached) at
        (row_deserialize-put n (leaf_value i) p s (omega (arith, leaf_cell_fits i h)))

  value_at : (i : ℕ) → cursor_value env (at n i) s ≡ ok (n, leaf_value i) s
  unfolding cursor_value
  value_at i = rw (get_page-cached env n s l.small l.cached)

  advance_inside :
      (i : ℕ) → suc i < word p leaf_num_cells → cursor_advance env (at n i) s ≡ ok (at n (suc i)) s
  unfolding cursor_advance
  advance_inside i h =
      let wrap : u32 (i + 1) ≡ suc i = omega (arith, l.few) in
      rw (
        get_page-cached env n s l.small l.cached,
        load32-ok n s l.cached leaf_num_cells (omega arith),
        wrap,
        lt→not_leb (word p leaf_num_cells) (suc i) h,
      )

  -- Behind the last cell the walk ends, if there is no successor, or goes on with the successor.
  advance_end :
      (i : ℕ)
      → suc i ≡ word p leaf_num_cells
      → word p leaf_next ≡ 0
      → cursor_advance env (at n i) s
        ≡ ok (record { page_num = n; cell_num = suc i; end_of_table = some true }) s
  unfolding cursor_advance
  advance_end i h none_next =
      let wrap : u32 (i + 1) ≡ suc i = omega (arith, l.few) in
      rw (
        get_page-cached env n s l.small l.cached,
        load32-ok n s l.cached leaf_num_cells (omega arith),
        wrap,
        le→leb (word p leaf_num_cells) (suc i) (omega arith),
        load32-ok n s l.cached leaf_next (omega arith),
        none_next,
      )

  advance_link :
      (i : ℕ)
      → suc i ≡ word p leaf_num_cells
      → word p leaf_next ≢ 0
      → cursor_advance env (at n i) s ≡ ok (at (word p leaf_next) 0) s
  unfolding cursor_advance
  advance_link i h more =
      let wrap : u32 (i + 1) ≡ suc i = omega (arith, l.few) in
      rw (
        get_page-cached env n s l.small l.cached,
        load32-ok n s l.cached leaf_num_cells (omega arith),
        wrap,
        le→leb (word p leaf_num_cells) (suc i) (omega arith),
        load32-ok n s l.cached leaf_next (omega arith),
        ne→not_== (word p leaf_next) 0 more,
      )

  -- With `m + 1` cells from `i` on, the loop reads their rows, and then those that it reads from the
  -- cursor behind them.
  select_loop-leaf :
      (fuel m i below : ℕ) (next : Cursor) (rest : List Row)
      → i + suc m ≡ word p leaf_num_cells
      → ((j : ℕ) → suc j ≡ word p leaf_num_cells → cursor_advance env (at n j) s ≡ ok next s)
      → ((k : ℕ) → below < k → select_loop env k next s ≡ ok rest s)
      → below + suc m < fuel
      → select_loop env fuel (at n i) s ≡ ok (rows (cells_from p i (suc m)) ++ rest) s
  unfolding select_loop cells_from cell_at
  select_loop-leaf zero m i below next rest e ends goes h = absurd (omega arith)
  select_loop-leaf (suc k) zero i below next rest e ends goes h = rw (
    value_at i,
    deserialize_at i (omega (arith, l.few)),
    ends i (omega arith),
    goes k (omega arith),
  )
  select_loop-leaf (suc k) (suc m) i below next rest e ends goes h = rw (
    value_at i,
    deserialize_at i (omega (arith, l.few)),
    advance_inside i (omega arith),
    select_loop-leaf k m (suc i) below next rest (omega arith) ends goes (omega arith),
  )

  select_loop-cells :
      (fuel below : ℕ) (next : Cursor) (rest : List Row)
      → 0 < word p leaf_num_cells
      → ((j : ℕ) → suc j ≡ word p leaf_num_cells → cursor_advance env (at n j) s ≡ ok next s)
      → ((k : ℕ) → below < k → select_loop env k next s ≡ ok rest s)
      → below + word p leaf_num_cells < fuel
      → select_loop env fuel (at n 0) s ≡ ok (rows (cells p) ++ rest) s
  unfolding cells
  select_loop-cells fuel below next rest some_cells ends goes h =
      counted (word p leaf_num_cells - 1) (omega arith)
    where
      counted :
          (m : ℕ)
          → word p leaf_num_cells ≡ suc m
          → select_loop env fuel (at n 0) s
            ≡ ok (rows (cells_from p 0 (word p leaf_num_cells)) ++ rest) s
      counted m e =
          rw e (select_loop-leaf fuel m 0 below next rest (omega arith) ends goes (omega arith))

-- Along a chain the loop reads the rows of all cells, in order, if the fuel exceeds their number.
pub select_loop-Chain :
    (env : Env) (s : Pager) (fuel n : ℕ) (xs : List Cell)
    → Chain s n xs
    → length xs < fuel
    → select_loop env fuel (at n 0) s ≡ ok (rows xs) s
select_loop-Chain env s fuel n xs (last _ _ p l some_cells none_next e) h =
    select_loop-cells env s n p l fuel 0
      (record { page_num = n; cell_num = word p leaf_num_cells; end_of_table = some true }) []
      some_cells
      (λ j ends.
        advance_end env s n p l j ends none_next
        ∙ ap (λ (i : ℕ). ok (record { page_num = n; cell_num = i; end_of_table = some true }) s)
            ends)
      (λ k enough. select_loop_end env k n (word p leaf_num_cells) s enough)
      (omega (arith, ap (length {0}) e, length-cells p))
    ∙ ap (λ rs. ok rs s) (append-nil (rows (cells p)) ∙ ap rows (sym e))
select_loop-Chain env s fuel n xs (link _ _ p ys l some_cells more rest e) h =
    let size = ap (length {0}) e ∙ length-append (cells p) ys in
    select_loop-cells env s n p l fuel (length ys) (at (word p leaf_next) 0) (rows ys) some_cells
      (λ j ends. advance_link env s n p l j ends more)
      (λ k enough. select_loop-Chain env s k (word p leaf_next) ys rest enough)
      (omega (arith, length-cells p, size))
    ∙ ap (λ rs. ok rs s) (sym (map-append (λ (x : Cell). x.row) (cells p) ys) ∙ ap rows (sym e))
