-- ===== src/Table/Search/Start.antt =====
-- The search tree that the first split leaves is a table.
use gnaro.Base.{
  ℕ, zero, ◌-◌, ◌≤◌, ◌<◌, ◌≡◌, ◌≢◌, refl, ◌∙◌, sym, ap, arith, some, List, ◌==◌, ==→eq, Bool-cases,
  inl, inr,
}
use mathlib.Core.Path.{subst}
use gnaro.Memory.{Pager}
use gnaro.Memory.Bytes.{Page, word}
use gnaro.Btree.Leaf.{leaf_num_cells}
use gnaro.Btree.Leaf.View.{Cell, cells, key_at}
use gnaro.Btree.Internal.{internal_num_keys}
use gnaro.Btree.Internal.View.{separator}
use gnaro.Btree.Insert.AllKeys.{AllKeys, AllKeys-join, cells-AllKeys, key_at-AllKeys}
use gnaro.Cursor.Descent.{child_number}
use gnaro.Table.Grow.{grown-Chain, grown-Leftmost}
use gnaro.Table.SelectTree.{same_page}
use gnaro.Table.TwoLevels.{IsSearchTree}
use gnaro.Table.Search.{HasKey, OnLeaf, IsSearch, InChain, here, later, IsTable}
use gnaro.Table.Search.Place.{IsSearchNode, IsSearch-of_node}

module _ (s : Pager) (root left right next : ℕ) (xs : List Cell)
    (g : IsSearchTree s root left right next xs) where
  -- A key under a leaf is one of its cells'.
  leaf_keys :
      (P : ℕ → Type 0) (n i a : ℕ) (p : Page)
      → child_number g.root_page i ≡ n
      → s.pages n ≡ some p
      → AllKeys P (cells p)
      → HasKey s zero (child_number g.root_page i) a
      → P a
  unfolding HasKey
  leaf_keys P n i a p child cached all (r, there, j, lt, e) =
      let page : r ≡ p = same_page s n r p (ap s.pages (sym child) ∙ there) cached in
      subst P (sym (ap (λ (u : Page). key_at u j) page) ∙ e)
        (key_at-AllKeys P p j all (subst (λ (u : Page). j < word u leaf_num_cells) page lt))

  grown_node : IsSearchNode s zero g.root_page
  grown_node = record {
    low = λ i a lt has.
        let e : i ≡ 0 = omega (arith, g.one_key) in
        subst (λ j. a ≤ separator g.root_page j) (sym e)
          (leaf_keys (λ b. b ≤ separator g.root_page 0) left i a g.left_page
            (ap (child_number g.root_page) e ∙ g.left_child) g.left_leaf.cached g.left_keys has);
    high = λ i a pos le has.
        let e : i ≡ 1 = omega (arith, g.one_key) in
        let e' : i - 1 ≡ 0 = omega arith in
        subst (λ j. separator g.root_page j < a) (sym e')
          (leaf_keys (λ b. separator g.root_page 0 < b) right i a g.right_page
            (ap (child_number g.root_page) e ∙ g.right_child) g.right_leaf.cached g.right_keys has);
    below = λ i le. unfold IsSearch in tt;
  }

  under_child :
      (n i j : ℕ) (p : Page)
      → i ≤ 1
      → child_number g.root_page i ≡ n
      → s.pages n ≡ some p
      → j < word p leaf_num_cells
      → HasKey s 1 root (key_at p j)
  unfolding HasKey
  under_child n i j p le child cached lt = (
    g.root_page,
    g.root_cached,
    i,
    omega (arith, g.one_key),
    (p, ap s.pages child ∙ cached, j, lt, refl),
  )

  on_chain : (k : ℕ) → right ≢ 0 → OnLeaf s 1 root k → InChain s k left
  unfolding OnLeaf
  on_chain k real (r, there, i, le, on) =
      let page : r ≡ g.root_page = same_page s root r g.root_page there g.root_cached in
      let on' : child_number g.root_page i ≡ k =
        sym (ap (λ (u : Page). child_number u i) page) ∙ on in
      let le' : i ≤ word g.root_page internal_num_keys =
        subst (λ (u : Page). i ≤ word u internal_num_keys) page le in
      elim (Bool-cases (i == 0)) [
        | inl first ↦
            here left
              (sym g.left_child ∙ ap (child_number g.root_page) (sym (==→eq i 0 first)) ∙ on')
        | inr other ↦
            let bound : i ≤ 1 = omega (arith, g.one_key) in
            let e : i ≡ 1 = ground arith in
            later left g.left_page g.left_leaf.cached (λ z. real (sym g.left_next ∙ z))
              (subst (InChain s k) (sym g.left_next)
                (here right (sym g.right_child ∙ ap (child_number g.root_page) (sym e) ∙ on')))
      ]

  pub grown-IsTable : next ≡ 0 → right ≢ 0 → IsTable s 1 root xs
  grown-IsTable none_next real = record {
    tree = g.tree;
    search = IsSearch-of_node s zero root g.root_page g.root_cached grown_node;
    first = left;
    leftmost = grown-Leftmost s root left right next xs g;
    chain = grown-Chain s root left right next xs g none_next real;
    ascend = g.ascend;
    chained = λ k on. on_chain k real on;
    in_tree = subst (AllKeys (HasKey s 1 root)) g.in_order (
        AllKeys-join (HasKey s 1 root) (cells g.left_page) (cells g.right_page)
          (cells-AllKeys (HasKey s 1 root) g.left_page λ j lt.
            under_child left 0 j g.left_page (omega arith) g.left_child g.left_leaf.cached lt)
          (cells-AllKeys (HasKey s 1 root) g.right_page λ j lt.
            under_child right 1 j g.right_page (omega arith) g.right_child g.right_leaf.cached lt));
  }
