-- ===== src/Btree/Leaf/View.antt =====
-- A leaf's page as a table of cells: keys, rows and their order.
use gnaro.Base.{ℕ, zero, suc, ◌+◌, ◌*◌, ◌≤◌, ◌<◌, ◌≡◌, List, [], ◌∷◌, arith, some}
use gnaro.Memory.{page_size, Pager, ok}
use gnaro.Memory.Laws.{load8-ok}
use gnaro.Btree.Node.{node_get_type}
use gnaro.Memory.Bytes.{Page, word}
use gnaro.Row.{Row}
use gnaro.Row.RoundTrip.{row_at}
use gnaro.Btree.Layout.{leaf, leaf_cell_size, leaf_max_cells}
use gnaro.Btree.Leaf.{leaf_cell, leaf_key, leaf_value, leaf_num_cells}

-- The multiplication in `btree_node_leaf_cell` does not wrap within a page.
pub leaf_cell_exact : (i : ℕ) → i ≤ 14 → leaf_cell i ≡ 14 + 297 * i
unfolding leaf_cell
leaf_cell_exact i h = omega arith

-- All cells of a leaf lie within its page.
pub leaf_cell_fits : (i : ℕ) → i < leaf_max_cells → leaf_cell i + leaf_cell_size ≤ page_size
leaf_cell_fits i h = omega (arith, leaf_cell_exact i (omega arith))

unfoldable pub key_at : Page → ℕ → ℕ
key_at p i = word p (leaf_key i)

-- A cell: its key and its row.
pub record Cell : Type 0 where
  pub key : ℕ
  pub row : Row

unfoldable pub cell_at : Page → ℕ → Cell
unfolding key_at
cell_at p i = record { key = key_at p i; row = row_at p (leaf_value i) }

-- The cells `i`, `i + 1`, … , `i + n - 1`.
unfoldable pub cells_from : Page → (i n : ℕ) → List Cell
cells_from p i zero = []
cells_from p i (suc n) = cell_at p i ∷ cells_from p (suc i) n

-- The content of a leaf.
unfoldable pub cells : Page → List Cell
unfolding cells_from
cells p = cells_from p 0 (word p leaf_num_cells)

-- The keys of the first `n` cells ascend.
abbrev pub Ascending : Page → ℕ → Type 0
Ascending p n = (i j : ℕ) → i < j → j < n → key_at p i < key_at p j

-- `c` is the place of `key` among the first `n` cells: the keys before it are smaller, and those
-- from it on are not.
pub record IsPlace (p : Page) (n key c : ℕ) : Type 0 where
  pub within : c ≤ n
  pub below : (i : ℕ) → i < c → key_at p i < key
  pub above : (i : ℕ) → c ≤ i → i < n → key ≤ key_at p i

-- A page that starts with the byte 1 is a leaf's.
pub node_get_type-leaf :
    (node : ℕ) (s : Pager) {p : Page}
    → s.pages node ≡ some p
    → p 0 ≡ 1
    → node_get_type node s ≡ ok leaf s
unfolding node_get_type
node_get_type-leaf node s here type = rw (load8-ok node s here 0 (omega arith), type)
