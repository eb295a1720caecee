-- ===== src/Table/Search/Keys.antt =====
-- The keys under a node after an insertion into one leaf.
use gnaro.Base.{
  ℕ, zero, suc, ◌≤◌, ◌<◌, ◌≡◌, ◌≢◌, refl, ◌∙◌, sym, ap, arith, some, ◌⊎◌, inl, inr, ◌==◌, ==→eq,
  Bool-cases,
}
use mathlib.Core.Path.{subst}
use gnaro.Memory.{Pager, put}
use gnaro.Memory.Bytes.{Page, word}
use gnaro.Memory.Laws.{update_self, update_ne}
use gnaro.Btree.Leaf.{leaf_num_cells, leaf_next}
use gnaro.Btree.Leaf.View.{Cell, key_at, cells}
use gnaro.Btree.Internal.{internal_num_keys}
use gnaro.Btree.Insert.Listing.{insert_sorted}
use gnaro.Btree.Insert.AllKeys.{
  AllKeys, AllKeys-insert_sorted, AllKeys-of_insert_sorted, cells-AllKeys, key_at-AllKeys,
}
use gnaro.Cursor.Descent.{IsTree, IsLeaf, IsInternal, child_number}
use gnaro.Table.SelectTree.{same_page, not_both}
use gnaro.Table.Search.{HasKey, OnLeaf}

-- The pages of a state before and after the insertion of `x` into the leaf `p` on page `k`.
pub record IsInserted (s : Pager) (k : ℕ) (p q : Page) (x : Cell) : Type 0 where
  pub before : IsLeaf s k p
  pub after : IsLeaf (put k q s) k q
  pub content : cells q ≡ insert_sorted x (cells p)
  pub some_cells : 0 < word p leaf_num_cells
  pub some_after : 0 < word q leaf_num_cells
  pub next : word q leaf_next ≡ word p leaf_next

-- A leaf's first key is under every node above it.
pub HasKey-OnLeaf :
    (s : Pager) (h n k j : ℕ) (p : Page)
    → s.pages k ≡ some p
    → j < word p leaf_num_cells
    → OnLeaf s h n k
    → HasKey s h n (key_at p j)
unfolding HasKey OnLeaf
HasKey-OnLeaf s zero n k j p cached lt here = (p, ap s.pages here ∙ cached, j, lt, refl)
HasKey-OnLeaf s (suc h) n k j p cached lt (r, there, i, le, below) =
    (r, there, i, le, HasKey-OnLeaf s h (child_number r i) k j p cached lt below)

module _ (s : Pager) (k : ℕ) (p q : Page) (x : Cell) (g : IsInserted s k p q x) where
  -- Other pages are as before.
  pub kept : (n : ℕ) → n ≢ k → (put k q s).pages n ≡ s.pages n
  kept n ne = update_ne s.pages k n (some q) ne

  pub internal_kept : (n : ℕ) (r : Page) → IsInternal s n r → n ≢ k
  internal_kept n r d e = not_both s k p r g.before (subst (λ m. IsInternal s m r) e d)

  -- Each key of the new page is the new one or one of the old page.
  new_key :
      (j : ℕ)
      → j < word q leaf_num_cells
      → (key_at q j ≡ x.key) ⊎ ((i : ℕ) × (i < word p leaf_num_cells) × (key_at p i ≡ key_at q j))
  new_key j lt = key_at-AllKeys Known q j known lt
    where
      Known : ℕ → Type 0
      Known a = (a ≡ x.key) ⊎ ((i : ℕ) × (i < word p leaf_num_cells) × (key_at p i ≡ a))

      known : AllKeys Known (cells q)
      known = subst (AllKeys Known) (sym g.content) (
          AllKeys-insert_sorted Known x (cells p) (inl refl)
            (cells-AllKeys Known p λ i small. inr (i, small, refl)))

  -- A key after the insertion is one of before, or the new one in a subtree with that leaf.
  pub HasKey-inserted :
      (h n a : ℕ)
      → IsTree s h n
      → HasKey (put k q s) h n a
      → HasKey s h n a ⊎ ((a ≡ x.key) × OnLeaf s h n k)
  unfolding IsTree HasKey OnLeaf
  HasKey-inserted zero n a tree (r, here, j, lt, e) = elim (Bool-cases (n == k)) [
    | inl at ↦
        let same : n ≡ k = ==→eq n k at in
        let page : r ≡ q =
          same_page (put k q s) n r q here
            (ap (put k q s).pages same ∙ update_self s.pages k (some q)) in
        let lt' : j < word q leaf_num_cells =
          subst (λ (u : Page). j < word u leaf_num_cells) page lt in
        let e' : key_at q j ≡ a = sym (ap (λ (u : Page). key_at u j) page) ∙ e in
        elim (new_key j lt') [
          | inl new ↦ inr (sym e' ∙ new, same)
          | inr (i, small, old) ↦ inl (p, ap s.pages same ∙ g.before.cached, i, small, old ∙ e')
        ]
    | inr other ↦ let ne : n ≢ k = λ same. ground arith in inl (r, sym (kept n ne) ∙ here, j, lt, e)
  ]
  HasKey-inserted (suc h) n a (u, d, rest) (r, here, i, le, below) =
      let there : s.pages n ≡ some r = sym (kept n (internal_kept n u d)) ∙ here in
      let page : u ≡ r = same_page s n u r d.cached there in
      let le' : i ≤ word u internal_num_keys =
        subst (λ (v : Page). i ≤ word v internal_num_keys) (sym page) le in
      let sub : IsTree s h (child_number r i) =
        subst (λ (v : Page). IsTree s h (child_number v i)) page (rest i le') in
      elim (HasKey-inserted h (child_number r i) a sub below) [
        | inl old ↦ inl (r, there, i, le, old)
        | inr (new, on) ↦ inr (new, (r, there, i, le, on))
      ]

  -- The old keys are still there.
  pub OnLeaf-inserted : (h n l : ℕ) → IsTree s h n → OnLeaf (put k q s) h n l → OnLeaf s h n l
  unfolding IsTree OnLeaf
  OnLeaf-inserted zero n l tree here = here
  OnLeaf-inserted (suc h) n l (u, d, rest) (r, here, i, le, below) =
      let there : s.pages n ≡ some r = sym (kept n (internal_kept n u d)) ∙ here in
      let page : u ≡ r = same_page s n u r d.cached there in
      let le' : i ≤ word u internal_num_keys =
        subst (λ (v : Page). i ≤ word v internal_num_keys) (sym page) le in
      let sub : IsTree s h (child_number r i) =
        subst (λ (v : Page). IsTree s h (child_number v i)) page (rest i le') in
      (r, there, i, le, OnLeaf-inserted h (child_number r i) l sub below)

  -- The old keys are still there, and the new one too.
  new_page_key :
      (n : ℕ) (a : ℕ)
      → n ≡ k
      → ((j : ℕ) × (j < word p leaf_num_cells) × (key_at p j ≡ a)) ⊎ (a ≡ x.key)
      → HasKey (put k q s) zero n a
  unfolding HasKey
  new_page_key n a same which = elim which [
    | inl (j, lt, e) ↦ key_at-AllKeys Found p j found.1 lt e
    | inr e ↦ found.0 (sym e)
  ]
    where
      Found : ℕ → Type 0
      Found b = b ≡ a → HasKey (put k q s) zero n a

      found : Found x.key × AllKeys Found (cells p)
      found = AllKeys-of_insert_sorted Found x (cells p) (
          subst (AllKeys Found) g.content (
            cells-AllKeys Found q
              λ j lt e. (q, ap (put k q s).pages same ∙ update_self s.pages k (some q), j, lt, e)))

  pub HasKey-kept : (h n a : ℕ) → IsTree s h n → HasKey s h n a → HasKey (put k q s) h n a
  unfolding IsTree HasKey
  HasKey-kept zero n a tree (r, here, j, lt, e) = elim (Bool-cases (n == k)) [
    | inl at ↦
        let same : n ≡ k = ==→eq n k at in
        let page : r ≡ p = same_page s n r p here (ap s.pages same ∙ g.before.cached) in
        new_page_key n a same (
          inl (
            j,
            subst (λ (u : Page). j < word u leaf_num_cells) page lt,
            sym (ap (λ (u : Page). key_at u j) page) ∙ e,
          ))
    | inr other ↦ let ne : n ≢ k = λ same. ground arith in (r, kept n ne ∙ here, j, lt, e)
  ]
  HasKey-kept (suc h) n a (u, d, rest) (r, here, i, le, below) =
      let page : u ≡ r = same_page s n u r d.cached here in
      let le' : i ≤ word u internal_num_keys =
        subst (λ (v : Page). i ≤ word v internal_num_keys) (sym page) le in
      let sub : IsTree s h (child_number r i) =
        subst (λ (v : Page). IsTree s h (child_number v i)) page (rest i le') in
      (r, kept n (internal_kept n u d) ∙ here, i, le, HasKey-kept h (child_number r i) a sub below)

  pub HasKey-new : (h n : ℕ) → IsTree s h n → OnLeaf s h n k → HasKey (put k q s) h n x.key
  unfolding IsTree HasKey OnLeaf
  HasKey-new zero n tree same = new_page_key n x.key same (inr refl)
  HasKey-new (suc h) n (u, d, rest) (r, here, i, le, below) =
      let page : u ≡ r = same_page s n u r d.cached here in
      let le' : i ≤ word u internal_num_keys =
        subst (λ (v : Page). i ≤ word v internal_num_keys) (sym page) le in
      let sub : IsTree s h (child_number r i) =
        subst (λ (v : Page). IsTree s h (child_number v i)) page (rest i le') in
      (r, kept n (internal_kept n u d) ∙ here, i, le, HasKey-new h (child_number r i) sub below)
