-- ===== src/Btree/Insert/Sorted.antt =====
-- `btree_node_leaf_insert` into a leaf with room is insertion into a sorted list.
use gnaro.Base.{ℕ, suc, ◌+◌, ◌-◌, ◌*◌, ◌^◌, ◌≤◌, ◌<◌, ◌≡◌, refl, some, arith, ◌⊎◌, lt→not_leb}
use native.Mathlib.Numerals.{add-one}
use gnaro.Memory.{Pager, ok, put}
use gnaro.Memory.Bytes.{Page, word, word-ext}
use gnaro.Memory.Laws.{put_self, load32-put, store32-put}
use gnaro.Row.{Row}
use gnaro.Row.RoundTrip.{stored, row_serialize-put}
use gnaro.Pager.{Env, pager_max_pages}
use gnaro.Pager.Cache.{get_page-put}
use gnaro.Btree.Layout.{leaf_max_cells}
use gnaro.Btree.Node.{u32}
use gnaro.Btree.Leaf.{Cursor, leaf_num_cells}
use gnaro.Btree.Leaf.View.{cell_at, Cell, cells_from, cells, leaf_cell_exact, IsPlace}
use gnaro.Btree.Insert.{leaf_insert}
use gnaro.Btree.Insert.Listing.{insert_sorted, cells_from-tabulate, tabulate-insert_sorted}
use gnaro.Btree.Insert.Cells.{
  shifted, leaf_make_room-put, inserted, cell_at-inserted_below, cell_at-inserted_above,
  cell_at-inserted_self, num_cells-inserted, inserted_header,
}

-- A page `q` that holds the cells of `p` with `x` at place `c` holds their sorted insertion.
cells_from-insert_sorted :
    (p q : Page) (x : Cell) (i n c : ℕ)
    → i ≤ c
    → c ≤ i + n
    → ((k : ℕ) → i ≤ k → k < c → (cell_at q k ≡ cell_at p k) × ((cell_at p k).key < x.key))
    → cell_at q c ≡ x
    → ((k : ℕ)
        → c ≤ k
        → k < i + n
        → (cell_at q (suc k) ≡ cell_at p k) × (x.key ≤ (cell_at p k).key))
    → cells_from q i (suc n) ≡ insert_sorted x (cells_from p i n)
cells_from-insert_sorted p q x i n c lo hi below here above =
    rw (cells_from-tabulate q i (suc n), cells_from-tabulate p i n)
      (tabulate-insert_sorted (cell_at p) (cell_at q) x i n c lo hi below here above)

module _ (p : Page) (n c key : ℕ) (row : Row) (room : n < leaf_max_cells)
    (place : IsPlace p n key c) (key_fits : key < 2 ^ 32) (id_fits : row.id < 2 ^ 32) where
  pub cells-inserted :
      word p leaf_num_cells ≡ n
      → cells (inserted p n c key row)
        ≡ insert_sorted (record { key = key; row = stored row }) (cells p)
  unfolding cells cell_at
  cells-inserted count =
      rw (num_cells-inserted p n c key row place.within room, count, add-one)
        (cells_from-insert_sorted p (inserted p n c key row)
          (record { key = key; row = stored row }) 0 n c (omega arith) (omega (arith, place.within))
          (λ k a b. (cell_at-inserted_below p n c key row place.within room k b, place.below k b))
          (cell_at-inserted_self p n c key row place.within room key_fits id_fits)
          (λ k a b.
            let inside : k < n = omega arith in
            (
              cell_at-inserted_above p n c key row place.within room k a inside,
              place.above k a inside,
            )))

num_cells-shifted :
    (p : Page) (c k : ℕ) → word (shifted p c k) leaf_num_cells ≡ word p leaf_num_cells
unfolding shifted
num_cells-shifted p c k =
    word-ext (shifted p c k) p leaf_num_cells leaf_num_cells λ j lt. unfold shifted in ground arith

-- What the code of `btree_node_leaf_insert` does to a page with room.
pub leaf_insert-inserted :
    (env : Env) (fuel root : ℕ) (cursor : Cursor) (key : ℕ) (row : Row) (p : Page) (s : Pager)
    → cursor.page_num < pager_max_pages
    → cursor.cell_num ≤ word p leaf_num_cells
    → word p leaf_num_cells < leaf_max_cells
    → leaf_insert env fuel root cursor key row (put cursor.page_num p s)
      ≡ ok tt (put cursor.page_num (inserted p (word p leaf_num_cells) cursor.cell_num key row) s)
unfolding leaf_insert inserted
leaf_insert-inserted env fuel root cursor key row p s small within room =
    let n = word p leaf_num_cells in
    let m = cursor.page_num in
    let c = cursor.cell_num in
    rw (
      get_page-put env m p s small,
      load32-put m p s leaf_num_cells (omega arith),
      lt→not_leb leaf_max_cells n room,
      leaf_make_room-put (n - c) m c p s (omega arith),
      load32-put m (shifted p c (n - c)) s leaf_num_cells (omega arith),
      num_cells-shifted p c (n - c),
      wrap n room,
      store32-put m (shifted p c (n - c)) s leaf_num_cells (n + 1) (omega arith),
      leaf_cell_exact c (omega arith),
      store32-put m _ s (14 + 297 * c) key (omega arith),
      row_serialize-put row m (14 + 297 * c + 4) _ s (omega arith),
    )
  where
    wrap : (n : ℕ) → n < leaf_max_cells → u32 (n + 1) ≡ n + 1
    wrap n h = omega arith

-- For a leaf page with fewer than 13 cells, and the cursor on the place of the key there, the
-- insertion returns and changes that page alone; its cells are then the sorted insertion of the key
-- and the stored row into the cells it had, and of its header only the counter has changed.
pub leaf_insert-insert_sorted :
    (env : Env) (fuel root : ℕ) (cursor : Cursor) (key : ℕ) (row : Row) (p : Page) (s : Pager)
    → cursor.page_num < pager_max_pages
    → s.pages cursor.page_num ≡ some p
    → word p leaf_num_cells < leaf_max_cells
    → IsPlace p (word p leaf_num_cells) key cursor.cell_num
    → key < 2 ^ 32
    → row.id < 2 ^ 32
    → (q : Page) × (leaf_insert env fuel root cursor key row s ≡ ok tt (put cursor.page_num q s))
      × (cells q ≡ insert_sorted (record { key = key; row = stored row }) (cells p))
      × ((a : ℕ) → a < 14 → ((a < 6) ⊎ (10 ≤ a)) → q a ≡ p a)
leaf_insert-insert_sorted env fuel root cursor key row p s small here room place key_fits id_fits =
    let n = word p leaf_num_cells in
    let c = cursor.cell_num in
    (
      inserted p n c key row,
      rw (put_self cursor.page_num p s here) at
          (leaf_insert-inserted env fuel root cursor key row p s small place.within room),
      cells-inserted p n c key row room place key_fits id_fits refl,
      inserted_header p n c key row place.within room,
    )
