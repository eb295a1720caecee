-- ===== src/Table/Search/Place.antt =====
-- Where the keys of a search tree lie about the leaf to which a key descends.
use gnaro.Base.{
  ℕ, zero, suc, ◌-◌, ◌≤◌, ◌<◌, ◌≡◌, refl, sym, arith, some, ◌⊎◌, inl, inr, ltb, ◌==◌, ==→eq,
  Bool-cases,
}
use mathlib.Core.Path.{subst}
use gnaro.Memory.{Pager}
use gnaro.Memory.Bytes.{Page, word}
use gnaro.Btree.Internal.{internal_num_keys}
use gnaro.Btree.Internal.View.{separator}
use gnaro.Cursor.Descent.{IsTree, IsLeaf, IsInternal, Descent, arrived, down, child_number}
use gnaro.Table.SelectTree.{same_page, not_both}
use gnaro.Table.Search.{HasKey, OnLeaf, IsSearch}

-- The search order at a node with page `u`.
pub record IsSearchNode (s : Pager) (h : ℕ) (u : Page) : Type 0 where
  pub low :
      (i a : ℕ) → i < word u internal_num_keys → HasKey s h (child_number u i) a → a ≤ separator u i
  pub high :
      (i a : ℕ)
      → 0 < i
      → i ≤ word u internal_num_keys
      → HasKey s h (child_number u i) a
      → separator u (i - 1) < a
  pub below : (i : ℕ) → i ≤ word u internal_num_keys → IsSearch s h (child_number u i)

pub IsSearch-at :
    (s : Pager) (h n : ℕ) (u : Page)
    → IsSearch s (suc h) n
    → s.pages n ≡ some u
    → IsSearchNode s h u
unfolding IsSearch
IsSearch-at s h n u (w, there, low, high, below) here =
    subst (IsSearchNode s h) (same_page s n w u there here) (record {
      low = low;
      high = λ i a pos le has.
          let e : suc (i - 1) ≡ i = omega arith in
          high (i - 1) a (omega arith) (subst (λ j. HasKey s h (child_number w j) a) (sym e) has);
      below = below;
    })

pub HasKey-at :
    (s : Pager) (h n a : ℕ) (u : Page)
    → HasKey s (suc h) n a
    → s.pages n ≡ some u
    → (i : ℕ) × (i ≤ word u internal_num_keys) × HasKey s h (child_number u i) a
unfolding HasKey
HasKey-at s h n a u (w, there, i, le, has) here =
    let page = same_page s n w u there here in
    (
      i,
      subst (λ (v : Page). i ≤ word v internal_num_keys) page le,
      subst (λ (v : Page). HasKey s h (child_number v i) a) page has,
    )

pub IsTree-at :
    (s : Pager) (h n : ℕ) (u : Page)
    → IsTree s (suc h) n
    → s.pages n ≡ some u
    → (i : ℕ) → i ≤ word u internal_num_keys
    → IsTree s h (child_number u i)
unfolding IsTree
IsTree-at s h n u (w, d, rest) here =
    subst (λ (v : Page). (i : ℕ) → i ≤ word v internal_num_keys → IsTree s h (child_number v i))
      (same_page s n w u d.cached here) rest

pub IsTree-IsInternal : (s : Pager) (h n : ℕ) → IsTree s (suc h) n → (u : Page) × IsInternal s n u
unfolding IsTree
IsTree-IsInternal s h n (u, d, rest) = (u, d)

pub IsTree-IsLeaf : (s : Pager) (n : ℕ) → IsTree s zero n → (p : Page) × IsLeaf s n p
unfolding IsTree
IsTree-IsLeaf s n tree = tree

pub compared : (i c : ℕ) → (i < c) ⊎ ((i ≡ c) ⊎ (c < i))
compared i c = elim (Bool-cases (ltb i c)) [
  | inl less ↦ inl (ground arith)
  | inr other ↦ inr (elim (Bool-cases (i == c)) [
    | inl same ↦ inl (==→eq i c same)
    | inr more ↦ inr (ground arith)
  ])
]

module _ (s : Pager) (key k : ℕ) (p : Page) (leaf : IsLeaf s k p) where
  -- The leaf at the end of the path is under each node on it.
  pub Descent-OnLeaf : (h n : ℕ) → IsTree s h n → Descent s key n k → OnLeaf s h n k
  unfolding OnLeaf
  Descent-OnLeaf zero n tree (arrived _) = refl
  Descent-OnLeaf zero n tree (down _ _ c u d place path) =
      let (r, l) = IsTree-IsLeaf s n tree in absurd (not_both s n r u l d)
  Descent-OnLeaf (suc h) n tree (arrived _) =
      let (u, d) = IsTree-IsInternal s h n tree in absurd (not_both s n p u leaf d)
  Descent-OnLeaf (suc h) n tree (down _ _ c u d place path) = (
    u,
    d.cached,
    c,
    place.within,
    Descent-OnLeaf h (child_number u c) (IsTree-at s h n u tree d.cached c place.within) path,
  )

pub IsSearch-of_node :
    (s : Pager) (h n : ℕ) (u : Page)
    → s.pages n ≡ some u
    → IsSearchNode s h u
    → IsSearch s (suc h) n
unfolding IsSearch
IsSearch-of_node s h n u here node = (
  u,
  here,
  node.low,
  λ i a lt has.
      let e : suc i - 1 ≡ i = omega arith in
      subst (λ j. separator u j < a) e (node.high (suc i) a (omega arith) (omega arith) has),
  node.below,
)
