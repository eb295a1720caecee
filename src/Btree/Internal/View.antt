-- ===== src/Btree/Internal/View.antt =====
-- An internal node's page as a table of keys and children.
use gnaro.Base.{ℕ, ◌+◌, ◌*◌, ◌≤◌, ◌<◌, ◌≡◌, arith}
use gnaro.Memory.{page_size}
use gnaro.Memory.Bytes.{Page, word}
use gnaro.Btree.Layout.{internal_cell_size}
use gnaro.Btree.Internal.{internal_cell, internal_key}

-- A page has room for 510 cells of an internal node.
abbrev pub internal_page_cells : ℕ
internal_page_cells = 510

pub internal_cell_exact : (i : ℕ) → i ≤ internal_page_cells → internal_cell i ≡ 14 + 8 * i
unfolding internal_cell
internal_cell_exact i h = omega arith

pub internal_cell_fits :
    (i : ℕ) → i < internal_page_cells → internal_cell i + internal_cell_size ≤ page_size
internal_cell_fits i h = omega (arith, internal_cell_exact i (omega arith))

-- The key and the child's page number in cell `i`.
unfoldable pub separator : Page → ℕ → ℕ
separator p i = word p (internal_key i)

unfoldable pub child_at : Page → ℕ → ℕ
child_at p i = word p (internal_cell i)

abbrev pub Ascending : Page → ℕ → Type 0
Ascending p n = (i j : ℕ) → i ≤ j → j < n → separator p i ≤ separator p j

-- `c` is the child under which `key` belongs: the separators before it are smaller than the key, and
-- those from it on are not.
pub record IsChildPlace (p : Page) (n key c : ℕ) : Type 0 where
  pub within : c ≤ n
  pub below : (i : ℕ) → i < c → separator p i < key
  pub above : (i : ℕ) → c ≤ i → i < n → key ≤ separator p i
