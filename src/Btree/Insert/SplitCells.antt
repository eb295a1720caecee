-- ===== src/Btree/Insert/SplitCells.antt =====
-- The cells of the two halves of a split leaf are the sorted insertion into the cells it had.
use gnaro.Base.{ℕ, suc, ◌+◌, ◌*◌, ◌≤◌, ◌<◌, ◌≡◌, refl, ◌∙◌, sym, ap, inr, arith, ◌++◌}
use mathlib.Core.Path.{ap₂}
use gnaro.Memory.Bytes.{Page, word, set_word, set_word_out, word-set_word}
use gnaro.Btree.Node.{u32, node_parent}
use gnaro.Btree.Leaf.{leaf_num_cells, leaf_next}
use gnaro.Btree.Leaf.View.{Cell, cell_at, cells, IsPlace}
use gnaro.Btree.Insert.Cells.{cell_at-ext}
use gnaro.Btree.Insert.Listing.{
  insert_sorted, tabulate, cells_from-tabulate, tabulate-ext, tabulate-append,
  tabulate-insert_sorted,
}
use gnaro.Btree.Insert.Divide.{target, Divided}
use gnaro.Btree.Insert.Rounds.{target_before, target_here, target_behind}

-- Cells do not depend on the header.
pub cell_at-header :
    (p q : Page) (j : ℕ) → j ≤ 13 → ((a : ℕ) → 14 ≤ a → p a ≡ q a) → cell_at p j ≡ cell_at q j
cell_at-header p q j h same =
    cell_at-ext p q j j h h λ a small. same (14 + 297 * j + a) (omega arith)

-- The cells to be, listed, are the sorted insertion.
pub tabulate-target :
    (p p1 : Page) (c : ℕ) (x : Cell)
    → ((a : ℕ) → 14 ≤ a → p1 a ≡ p a)
    → IsPlace p 13 x.key c
    → tabulate (target p1 c x) 0 14 ≡ insert_sorted x (tabulate (cell_at p) 0 13)
unfolding cell_at
tabulate-target p p1 c x same place =
    tabulate-insert_sorted (cell_at p) (target p1 c x) x 0 13 c (omega arith)
      (omega (arith, place.within))
      (λ k low lt. (
        target_before p1 c x k lt ∙ cell_at-header p1 p k (omega (arith, place.within)) same,
        place.below k lt,
      ))
      (target_here p1 c x c refl)
      λ k le lt. (
        target_behind p1 c x (suc k) (omega arith)
            ∙ ap (cell_at p1) (omega arith)
            ∙ cell_at-header p1 p k (omega arith) same,
        place.above k le lt,
      )

-- What a split of the leaf `p` leaves: `p2` for the old node and `q2` for the new one.
pub record IsSplit (p : Page) (x : Cell) (new : ℕ) (p2 q2 : Page) : Type 0 where
  pub content : cells p2 ++ cells q2 ≡ insert_sorted x (cells p)
  pub count_old : word p2 leaf_num_cells ≡ 7
  pub count_new : word q2 leaf_num_cells ≡ 7
  pub next_old : word p2 leaf_next ≡ new
  pub next_new : word q2 leaf_next ≡ word p leaf_next
  pub parent_new : word q2 node_parent ≡ u32 (word p node_parent)
  pub header_old : (a : ℕ) → a < 6 → p2 a ≡ p a
  pub type_new : q2 0 ≡ 1
  pub root_new : q2 1 ≡ 0

module _ (p p1 q1 p' q' : Page) (c : ℕ) (x : Cell) (full : word p leaf_num_cells ≡ 13)
    (same : (a : ℕ) → 14 ≤ a → p1 a ≡ p a) (place : IsPlace p 13 x.key c)
    (d : Divided p1 q1 c x 0 p' q') where
  p2 : Page
  p2 = set_word p' leaf_num_cells 7

  q2 : Page
  q2 = set_word q' leaf_num_cells 7

  cells-p2 : cells p2 ≡ tabulate (target p1 c x) 0 7
  unfolding cells p2
  cells-p2 = rw (word-set_word p' leaf_num_cells 7 (omega arith)) (
      cells_from-tabulate p2 0 7
      ∙ tabulate-ext (cell_at p2) (target p1 c x) 0 0 7 λ a b low high e.
        let eq : b ≡ a = omega arith in
        rw eq (
          cell_at-header p2 p' a (omega arith)
            (λ o far. set_word_out p' leaf_num_cells 7 o (inr (omega arith)))
          ∙ d.done_old a (omega arith) (omega arith)))

  cells-q2 : cells q2 ≡ tabulate (target p1 c x) 7 7
  unfolding cells q2
  cells-q2 = rw (word-set_word q' leaf_num_cells 7 (omega arith)) (
      cells_from-tabulate q2 0 7
      ∙ tabulate-ext (cell_at q2) (target p1 c x) 0 7 7 λ a b low high e.
        let eq : b ≡ a + 7 = omega arith in
        rw eq (
          cell_at-header q2 q' a (omega arith)
            (λ o far. set_word_out q' leaf_num_cells 7 o (inr (omega arith)))
          ∙ d.done_new a (omega arith) (omega arith)))

  pub cells-split :
      cells (set_word p' leaf_num_cells 7) ++ cells (set_word q' leaf_num_cells 7)
      ≡ insert_sorted x (cells p)
  unfolding cells p2 q2
  cells-split =
      ap₂ ◌++◌ cells-p2 cells-q2
      ∙ tabulate-append (target p1 c x) 0 7 7 7 refl
      ∙ tabulate-target p p1 c x same place
      ∙ sym (ap (insert_sorted x) (rw full (cells_from-tabulate p 0 13)))
