-- ===== src/Table/Search/Keep.antt =====
-- An insertion into the leaf to which its key descends keeps the tree a search tree.
use gnaro.Base.{
  ℕ, zero, suc, ◌≤◌, ◌≡◌, ◌≢◌, ◌∙◌, sym, arith, some, inl, inr, ◌==◌, ==→eq, Bool-cases,
}
use mathlib.Core.Path.{subst}
use gnaro.Memory.{Pager, put}
use gnaro.Memory.Bytes.{Page, word}
use gnaro.Btree.Leaf.View.{Cell, key_at}
use gnaro.Btree.Internal.{internal_num_keys}
use gnaro.Cursor.Descent.{IsTree, IsLeaf, IsInternal, child_number}
use gnaro.Table.SelectTree.{Leftmost}
use gnaro.Table.Search.{HasKey, OnLeaf, IsSearch}
use gnaro.Table.Search.Keys.{IsInserted, HasKey-OnLeaf, HasKey-inserted, kept, internal_kept}
use gnaro.Table.Search.Place.{IsTree-at, IsTree-IsInternal}

module _ (s : Pager) (k : ℕ) (p q : Page) (x : Cell) (g : IsInserted s k p q x) where
  pub IsInternal-kept : (n : ℕ) (u : Page) → IsInternal s n u → IsInternal (put k q s) n u
  IsInternal-kept n u d = record {
    small = d.small;
    cached = kept s k p q x g n (internal_kept s k p q x g n u d) ∙ d.cached;
    type = d.type;
    few = d.few;
    ascending = d.ascending;
  }

  pub IsTree-kept : (h n : ℕ) → IsTree s h n → IsTree (put k q s) h n
  unfolding IsTree
  IsTree-kept zero n (r, l) = elim (Bool-cases (n == k)) [
    | inl at ↦ (q, subst (λ m. IsLeaf (put k q s) m q) (sym (==→eq n k at)) g.after)
    | inr other ↦
        let ne : n ≢ k = λ same. ground arith in
        (
          r,
          record {
            small = l.small;
            cached = kept s k p q x g n ne ∙ l.cached;
            type = l.type;
            few = l.few;
            ascending = l.ascending;
          },
        )
  ]
  IsTree-kept (suc h) n (u, d, rest) =
      (u, IsInternal-kept n u d, λ i le. IsTree-kept h (child_number u i) (rest i le))

  pub Leftmost-kept : (h n m : ℕ) → IsTree s h n → Leftmost s h n m → Leftmost (put k q s) h n m
  unfolding Leftmost
  Leftmost-kept zero n m tree left = left
  Leftmost-kept (suc h) n m tree (r, here, left) =
      let (u, d) = IsTree-IsInternal s h n tree in
      (
        r,
        kept s k p q x g n (internal_kept s k p q x g n u d) ∙ here,
        Leftmost-kept h (child_number r 0) m (IsTree-at s h n r tree here 0 (omega arith)) left,
      )

  -- A search tree in whose keys the leaf's first is not found is left alone.
  first : ℕ
  first = key_at p 0

  has_first : (h n : ℕ) → OnLeaf s h n k → HasKey s h n (key_at p 0)
  has_first h n on = HasKey-OnLeaf s h n k 0 p g.before.cached g.some_cells on

  old_key :
      (h n a : ℕ)
      → IsTree s h n
      → (HasKey s h n (key_at p 0) → ⊥)
      → HasKey (put k q s) h n a
      → HasKey s h n a
  old_key h n a tree without has = elim (HasKey-inserted s k p q x g h n a tree has) [
    | inl old ↦ old
    | inr (_, on) ↦ absurd (without (has_first h n on))
  ]

  without_child :
      (h n i : ℕ) (u : Page)
      → s.pages n ≡ some u
      → i ≤ word u internal_num_keys
      → (HasKey s (suc h) n (key_at p 0) → ⊥)
      → HasKey s h (child_number u i) (key_at p 0)
      → ⊥
  unfolding HasKey
  without_child h n i u here le without has = without (u, here, i, le, has)

  pub IsSearch-away :
      (h n : ℕ)
      → IsTree s h n
      → IsSearch s h n
      → (HasKey s h n (key_at p 0) → ⊥)
      → IsSearch (put k q s) h n
  unfolding IsSearch
  IsSearch-away zero n tree search without = tt
  IsSearch-away (suc h) n tree (u, here, low, high, below) without =
      let (w, d) = IsTree-IsInternal s h n tree in
      (
        u,
        kept s k p q x g n (internal_kept s k p q x g n w d) ∙ here,
        λ i a lt has. low i a lt (
            old_key h (child_number u i) a (IsTree-at s h n u tree here i (omega arith))
              (without_child h n i u here (omega arith) without) has),
        λ i a lt has. high i a lt (
            old_key h (child_number u (suc i)) a (IsTree-at s h n u tree here (suc i) (omega arith))
              (without_child h n (suc i) u here (omega arith) without) has),
        λ i le.
            IsSearch-away h (child_number u i) (IsTree-at s h n u tree here i le) (below i le)
              (without_child h n i u here le without),
      )
