-- ===== src/Table/Search/Order.antt =====
-- The keys of a search tree outside the leaf to which a key descends lie on the same side of that
-- key as of the keys in the leaf.
use gnaro.Base.{ℕ, zero, suc, ◌-◌, ◌≤◌, ◌<◌, ◌≡◌, ◌∙◌, sym, ap, arith, inl, inr, ◌==◌, Bool-cases}
use mathlib.Core.Path.{subst}
use gnaro.Memory.{Pager}
use gnaro.Memory.Bytes.{Page, word}
use gnaro.Btree.Leaf.{leaf_num_cells}
use gnaro.Btree.Leaf.View.{key_at}
use gnaro.Cursor.Descent.{IsTree, IsLeaf, Descent, arrived, down, child_number}
use gnaro.Table.SelectTree.{same_page, not_both}
use gnaro.Table.Search.{HasKey, IsSearch}
use gnaro.Table.Search.Keys.{HasKey-OnLeaf}
use gnaro.Table.Search.Place.{
  IsSearch-at, HasKey-at, IsTree-at, IsTree-IsInternal, IsTree-IsLeaf, compared, Descent-OnLeaf,
}

module _ (s : Pager) (key k m : ℕ) (p : Page) (leaf : IsLeaf s k p)
    (count : word p leaf_num_cells ≡ suc m) where
  -- A key in the leaf is neither before its first nor behind its last.
  leaf_key_between :
      (r : Page) (j a : ℕ)
      → r ≡ p
      → j < word r leaf_num_cells
      → key_at r j ≡ a
      → (key_at p 0 ≤ a) × (a ≤ key_at p m)
  leaf_key_between r j a page lt e =
      let lt' : j < suc m =
        omega (arith, subst (λ (u : Page). j < word u leaf_num_cells) page lt, count) in
      let e' : key_at p j ≡ a = sym (ap (λ (u : Page). key_at u j) page) ∙ e in
      (
        elim (Bool-cases (j == 0)) [
          | inl first ↦ let z : j ≡ 0 = ground arith in rw (sym e', z) (omega arith)
          | inr later ↦
              let up = leaf.ascending 0 j (ground arith) (omega (arith, count)) in omega arith
        ],
        elim (Bool-cases (j == m)) [
          | inl final ↦ let z : j ≡ m = ground arith in rw (sym e', z) (omega arith)
          | inr before ↦
              let up = leaf.ascending j m (ground arith) (omega (arith, count)) in omega arith
        ],
      )

  pub key_sides :
      (h n a : ℕ)
      → IsTree s h n
      → IsSearch s h n
      → Descent s key n k
      → HasKey s h n a
      → (a < key_at p 0 → a < key) × (key_at p m < a → key < a)
  unfolding HasKey
  key_sides zero n a tree search (arrived _) (r, here, j, lt, e) =
      let between = leaf_key_between r j a (same_page s n r p here leaf.cached) lt e in
      (λ less. absurd (omega arith), λ more. absurd (omega arith))
  key_sides zero n a tree search (down _ _ c u d place path) has =
      let (r, l) = IsTree-IsLeaf s n tree in absurd (not_both s n r u l d)
  key_sides (suc h) n a tree search (arrived _) has =
      let (u, d) = IsTree-IsInternal s h n tree in absurd (not_both s n p u leaf d)
  key_sides (suc h) n a tree search (down _ _ c u d place path) has =
      let node = IsSearch-at s h n u search d.cached in
      let (i, le, below) = HasKey-at s h n a u has d.cached in
      let sub = IsTree-at s h n u tree d.cached c place.within in
      let on = Descent-OnLeaf s key k p leaf h (child_number u c) sub path in
      let first = HasKey-OnLeaf s h (child_number u c) k 0 p leaf.cached (omega arith) on in
      let final = HasKey-OnLeaf s h (child_number u c) k m p leaf.cached (omega arith) on in
      elim (compared i c) [
        | inl less ↦
            let before = node.low i a (omega (arith, place.within)) below in
            let under = place.below i less in
            let low = node.high c (key_at p m) (omega arith) place.within final in
            let up = d.ascending i (c - 1) (omega arith) (omega (arith, place.within)) in
            (λ l. omega arith, λ g. absurd (omega arith))
        | inr (inl same) ↦
            key_sides h (child_number u c) a sub (node.below c place.within) path
              (subst (λ j. HasKey s h (child_number u j) a) same below)
        | inr (inr more) ↦
            let behind = node.high i a (omega arith) le below in
            let over = place.above c (omega arith) (omega arith) in
            let top = node.low c (key_at p 0) (omega arith) first in
            let up = d.ascending c (i - 1) (omega arith) (omega arith) in
            (λ l. absurd (omega arith), λ g. omega arith)
      ]
