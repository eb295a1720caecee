-- ===== src/Table/Search/OnPath.antt =====
-- An insertion into the leaf to which its key descends keeps the order of the tree on the way there.
use gnaro.Base.{ℕ, zero, suc, ◌-◌, ◌≤◌, ◌≡◌, sym, arith, ◌⊎◌, inl, inr}
use mathlib.Core.Path.{subst}
use gnaro.Memory.{Pager, put}
use gnaro.Memory.Bytes.{Page, word}
use gnaro.Btree.Leaf.View.{Cell, key_at}
use gnaro.Btree.Internal.{internal_num_keys}
use gnaro.Btree.Internal.View.{IsChildPlace}
use gnaro.Cursor.Descent.{IsTree, IsInternal, Descent, arrived, down, child_number}
use gnaro.Table.SelectTree.{not_both}
use gnaro.Table.Search.{HasKey, IsSearch}
use gnaro.Table.Search.Keys.{IsInserted, HasKey-OnLeaf, HasKey-inserted}
use gnaro.Table.Search.Keep.{IsInternal-kept, IsSearch-away}
use gnaro.Table.Search.Place.{
  IsSearchNode, IsSearch-at, IsSearch-of_node, IsTree-at, IsTree-IsInternal, compared,
  Descent-OnLeaf,
}

module _ (s : Pager) (k : ℕ) (p q : Page) (x : Cell) (g : IsInserted s k p q x) where
  -- Of the children of a node, only the one on the path has the first key of the leaf.
  only_child :
      (h n c i : ℕ) (u : Page)
      → IsInternal s n u
      → IsSearchNode s h u
      → c ≤ word u internal_num_keys
      → HasKey s h (child_number u c) (key_at p 0)
      → i ≤ word u internal_num_keys
      → HasKey s h (child_number u i) (key_at p 0)
      → i ≡ c
  only_child h n c i u d node within at_c le at_i = elim (compared i c) [
    | inl less ↦
        let low = node.low i (key_at p 0) (omega arith) at_i in
        let high = node.high c (key_at p 0) (omega arith) within at_c in
        let up = d.ascending i (c - 1) (omega arith) (omega arith) in absurd (omega arith)
    | inr (inl same) ↦ same
    | inr (inr more) ↦
        let low = node.low c (key_at p 0) (omega arith) at_c in
        let high = node.high i (key_at p 0) (omega arith) le at_i in
        let up = d.ascending c (i - 1) (omega arith) (omega arith) in absurd (omega arith)
  ]

  module _ (h n c : ℕ) (u : Page) (tree : IsTree s (suc h) n) (d : IsInternal s n u)
      (node : IsSearchNode s h u) (place : IsChildPlace u (word u internal_num_keys) x.key c)
      (path : Descent s x.key (child_number u c) k)
      (inserted : IsSearch (put k q s) h (child_number u c)) where
    child-IsTree : (i : ℕ) → i ≤ word u internal_num_keys → IsTree s h (child_number u i)
    child-IsTree = IsTree-at s h n u tree d.cached

    at_place : HasKey s h (child_number u c) (key_at p 0)
    at_place = HasKey-OnLeaf s h (child_number u c) k 0 p g.before.cached g.some_cells (
        Descent-OnLeaf s x.key k p g.before h (child_number u c) (child-IsTree c place.within) path)

    on_path :
        (i : ℕ) → i ≤ word u internal_num_keys → HasKey s h (child_number u i) (key_at p 0) → i ≡ c
    on_path i le has = only_child h n c i u d node place.within at_place le has

    -- A key under a child is one of before, or the new one under the child on the path.
    child_key :
        (i a : ℕ)
        → i ≤ word u internal_num_keys
        → HasKey (put k q s) h (child_number u i) a
        → HasKey s h (child_number u i) a ⊎ ((a ≡ x.key) × (i ≡ c))
    child_key i a le has =
        elim (HasKey-inserted s k p q x g h (child_number u i) a (child-IsTree i le) has) [
          | inl old ↦ inl old
          | inr (new, on) ↦ inr (
            new,
            on_path i le
                (HasKey-OnLeaf s h (child_number u i) k 0 p g.before.cached g.some_cells on),
          )
        ]

    node_inserted : IsSearchNode (put k q s) h u
    node_inserted = record {
      low = λ i a lt has. elim (child_key i a (omega arith) has) [
        | inl old ↦ node.low i a lt old
        | inr (new, same) ↦ let above = place.above i (omega arith) lt in omega arith
      ];
      high = λ i a pos le has. elim (child_key i a le has) [
        | inl old ↦ node.high i a pos le old
        | inr (new, same) ↦ let below = place.below (i - 1) (omega arith) in omega arith
      ];
      below = λ i le. elim (compared i c) [
        | inl less ↦
            IsSearch-away s k p q x g h (child_number u i) (child-IsTree i le) (node.below i le)
              (λ has. let same = on_path i le has in omega arith)
        | inr (inl same) ↦
            subst (λ j. IsSearch (put k q s) h (child_number u j)) (sym same) inserted
        | inr (inr more) ↦
            IsSearch-away s k p q x g h (child_number u i) (child-IsTree i le) (node.below i le)
              (λ has. let same = on_path i le has in omega arith)
      ];
    }

  pub IsSearch-inserted :
      (h n : ℕ) → IsTree s h n → IsSearch s h n → Descent s x.key n k → IsSearch (put k q s) h n
  IsSearch-inserted zero n tree search path = unfold IsSearch in tt
  IsSearch-inserted (suc h) n tree search (arrived _) =
      let (u, d) = IsTree-IsInternal s h n tree in absurd (not_both s n p u g.before d)
  IsSearch-inserted (suc h) n tree search (down _ _ c u d place path) =
      let node = IsSearch-at s h n u search d.cached in
      let inserted =
        IsSearch-inserted h (child_number u c) (IsTree-at s h n u tree d.cached c place.within)
          (node.below c place.within) path in
      IsSearch-of_node (put k q s) h n u (IsInternal-kept s k p q x g n u d).cached
        (node_inserted h n c u tree d node place path inserted)
