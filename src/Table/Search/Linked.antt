-- ===== src/Table/Search/Linked.antt =====
-- The chain of leaves after an insertion into one of them.
use gnaro.Base.{
  ℕ, suc, ◌<◌, ◌≡◌, ◌≢◌, refl, ◌∙◌, sym, ap, arith, ◌++◌, List, ◌==◌, ==→eq, Bool-cases, inl, inr,
}
use mathlib.Core.Path.{subst}
use gnaro.Memory.{Pager, put}
use gnaro.Memory.Bytes.{Page, word}
use gnaro.Btree.Leaf.{leaf_num_cells, leaf_next}
use gnaro.Btree.Leaf.View.{Cell, cells, key_at}
use gnaro.Btree.Insert.Listing.{insert_sorted}
use gnaro.Btree.Insert.AllKeys.{
  AllKeys, AllKeys-weaken, AllKeys-append, AllKeys-append_right, AllKeys-both, cells-AllKeys,
  key_at-AllKeys, insert_sorted-append_left, insert_sorted-append_right,
}
use gnaro.Btree.Insert.Ascend.{KeysAscend, KeysAscend-append, cells-behind}
use gnaro.Cursor.Descent.{IsLeaf}
use gnaro.Table.Chain.{Chain, last, link}
use gnaro.Table.SelectTree.{same_page}
use gnaro.Table.Search.{InChain, here, later}
use gnaro.Table.Search.Keys.{IsInserted, kept}

-- A key lies on the same side of the new key as of the keys in the leaf.
abbrev pub Sides : (p : Page) (m key a : ℕ) → Type 0
Sides p m key a = (a < key_at p 0 → a < key) × (key_at p m < a → key < a)

module _ (s : Pager) (k m : ℕ) (p q : Page) (x : Cell) (g : IsInserted s k p q x)
    (count : word p leaf_num_cells ≡ suc m) where
  IsLeaf-kept : (n : ℕ) (r : Page) → n ≢ k → IsLeaf s n r → IsLeaf (put k q s) n r
  IsLeaf-kept n r ne l = record {
    small = l.small;
    cached = kept s k p q x g n ne ∙ l.cached;
    type = l.type;
    few = l.few;
    ascending = l.ascending;
  }

  -- What holds of all keys of a chain that has the leaf holds of the leaf's first key.
  first_in_cells :
      (P : ℕ → Type 0) (n : ℕ) (r : Page)
      → n ≡ k
      → IsLeaf s n r
      → AllKeys P (cells r)
      → P (key_at p 0)
  first_in_cells P n r same l all =
      let page : r ≡ p = same_page s n r p l.cached (ap s.pages same ∙ g.before.cached) in
      key_at-AllKeys P p 0 (subst (λ u. AllKeys P (cells u)) page all) g.some_cells

  first_in_chain :
      (P : ℕ → Type 0) (n : ℕ) (xs : List Cell)
      → Chain s n xs
      → InChain s k n
      → AllKeys P xs
      → P (key_at p 0)
  first_in_chain P n xs (last _ _ r l _ _ e) (here _ same) all =
      first_in_cells P n r same l (subst (AllKeys P) e all)
  first_in_chain P n xs (last _ _ r l _ none_next e) (later _ u there more rest) all =
      absurd
        (more (ap (λ (v : Page). word v leaf_next) (same_page s n u r there l.cached) ∙ none_next))
  first_in_chain P n xs (link _ _ r ys l _ _ _ e) (here _ same) all =
      first_in_cells P n r same l (AllKeys-append P (cells r) ys (subst (AllKeys P) e all))
  first_in_chain P n xs (link _ _ r ys l _ _ chain e) (later _ u there more rest) all =
      let page = same_page s n u r there l.cached in
      first_in_chain P (word r leaf_next) ys chain
        (subst (λ (v : Page). InChain s k (word v leaf_next)) page rest)
        (AllKeys-append_right P (cells r) ys (subst (AllKeys P) e all))

  -- A chain without the first key of the leaf is left alone.
  Chain-away :
      (n : ℕ) (xs : List Cell)
      → Chain s n xs
      → AllKeys (λ a. a ≢ key_at p 0) xs
      → Chain (put k q s) n xs
  Chain-away n xs (last _ _ r l some_cells none_next e) without =
      let ne : n ≢ k = λ same.
        first_in_cells (λ a. a ≢ key_at p 0) n r same l
          (subst (AllKeys (λ a. a ≢ key_at p 0)) e without) refl in
      last n xs r (IsLeaf-kept n r ne l) some_cells none_next e
  Chain-away n xs (link _ _ r ys l some_cells more chain e) without =
      let without' = subst (AllKeys (λ a. a ≢ key_at p 0)) e without in
      let ne : n ≢ k = λ same.
        first_in_cells (λ a. a ≢ key_at p 0) n r same l
          (AllKeys-append (λ a. a ≢ key_at p 0) (cells r) ys without') refl in
      link n xs r ys (IsLeaf-kept n r ne l) some_cells more
        (Chain-away (word r leaf_next) ys chain
          (AllKeys-append_right (λ a. a ≢ key_at p 0) (cells r) ys without'))
        e

  behind_leaf :
      (ys : List Cell)
      → KeysAscend (cells p ++ ys)
      → (j : ℕ) → j < suc m
      → AllKeys (λ a. key_at p j < a) ys
  behind_leaf ys ascend j lt = cells-behind p j ys ascend (omega (arith, count))

  -- The chain starts with the leaf.
  link_here :
      (ys : List Cell)
      → word p leaf_next ≢ 0
      → Chain s (word p leaf_next) ys
      → KeysAscend (cells p ++ ys)
      → AllKeys (Sides p m x.key) ys
      → Chain (put k q s) k (insert_sorted x (cells p ++ ys))
  link_here ys more chain ascend sides =
      let behind = behind_leaf ys ascend in
      let away : AllKeys (λ a. a ≢ key_at p 0) ys =
        AllKeys-weaken (λ a. key_at p 0 < a) (λ a. a ≢ key_at p 0) ys (λ a lt e. omega arith)
          (behind 0 (omega arith)) in
      let above : AllKeys (λ a. x.key < a) ys =
        AllKeys-weaken (λ a. Sides p m x.key a × (key_at p m < a)) (λ a. x.key < a) ys
          (λ a both. both.0.1 both.1)
          (AllKeys-both (Sides p m x.key) (λ a. key_at p m < a) ys sides
            (behind m (omega arith))) in
      let linked : Chain (put k q s) (word q leaf_next) ys =
        subst (λ n. Chain (put k q s) n ys) (sym g.next)
          (Chain-away (word p leaf_next) ys chain away) in
      link k (insert_sorted x (cells p ++ ys)) q ys g.after g.some_after
        (λ e. more (sym g.next ∙ e)) linked
        (insert_sorted-append_left x (cells p) ys above ∙ ap (λ zs. zs ++ ys) (sym g.content))

  -- A leaf in front of it, the rest of the chain being treated.
  link_before :
      (n : ℕ) (r : Page) (ys : List Cell)
      → n ≢ k
      → IsLeaf s n r
      → 0 < word r leaf_num_cells
      → word r leaf_next ≢ 0
      → Chain s (word r leaf_next) ys
      → InChain s k (word r leaf_next)
      → KeysAscend (cells r ++ ys)
      → AllKeys (Sides p m x.key) (cells r ++ ys)
      → Chain (put k q s) (word r leaf_next) (insert_sorted x ys)
      → Chain (put k q s) n (insert_sorted x (cells r ++ ys))
  link_before n r ys ne l some_cells more chain on ascend sides rest =
      let sides' = AllKeys-append (Sides p m x.key) (cells r) ys sides in
      let below : AllKeys (λ a. a < x.key) (cells r) =
        cells-AllKeys (λ a. a < x.key) r
          λ j lt. (key_at-AllKeys (Sides p m x.key) r j sides' lt).0 (
            first_in_chain (λ a. key_at r j < a) (word r leaf_next) ys chain on
              (cells-behind r j ys ascend lt)) in
      link n (insert_sorted x (cells r ++ ys)) r (insert_sorted x ys) (IsLeaf-kept n r ne l)
        some_cells more rest (insert_sorted-append_right x (cells r) ys below)

  pub Chain-inserted :
      (n : ℕ) (xs : List Cell)
      → Chain s n xs
      → InChain s k n
      → KeysAscend xs
      → AllKeys (Sides p m x.key) xs
      → Chain (put k q s) n (insert_sorted x xs)
  Chain-inserted n xs (last _ _ r l some_cells none_next e) on ascend sides =
      elim (Bool-cases (n == k)) [
        | inl at ↦
            let same : n ≡ k = ==→eq n k at in
            let page : r ≡ p = same_page s n r p l.cached (ap s.pages same ∙ g.before.cached) in
            subst (λ j. Chain (put k q s) j (insert_sorted x xs)) (sym same)
              (last k (insert_sorted x xs) q g.after g.some_after
                (g.next ∙ ap (λ (u : Page). word u leaf_next) (sym page) ∙ none_next)
                (ap (insert_sorted x) (e ∙ ap cells page) ∙ sym g.content))
        | inr other ↦ let ne : n ≢ k = λ same. ground arith in absurd (ends n r l none_next ne on)
      ]
    where
      ends : (i : ℕ) (r : Page) → IsLeaf s i r → word r leaf_next ≡ 0 → i ≢ k → InChain s k i → ⊥
      ends i r l none_next ne (here _ same) = ne same
      ends i r l none_next ne (later _ u there more rest) =
          more (ap (λ (v : Page). word v leaf_next) (same_page s i u r there l.cached) ∙ none_next)
  Chain-inserted n xs (link _ _ r ys l some_cells more chain e) (here _ same) ascend sides =
      let page : r ≡ p = same_page s n r p l.cached (ap s.pages same ∙ g.before.cached) in
      let e' : xs ≡ cells p ++ ys = e ∙ ap (λ u. cells u ++ ys) page in
      let sides' =
        AllKeys-append_right (Sides p m x.key) (cells r) ys
          (subst (AllKeys (Sides p m x.key)) e sides) in
      let done : Chain (put k q s) k (insert_sorted x (cells p ++ ys)) =
        link_here ys (λ z. more (ap (λ (v : Page). word v leaf_next) page ∙ z))
          (subst (λ (v : Page). Chain s (word v leaf_next) ys) page chain)
          (subst KeysAscend e' ascend) sides' in
      subst (λ j. Chain (put k q s) j (insert_sorted x xs)) (sym same)
        (subst (λ zs. Chain (put k q s) k (insert_sorted x zs)) (sym e') done)
  Chain-inserted n xs (link _ _ r ys l some_cells more chain e) (later _ u there _ rest) ascend
        sides =
      let page = same_page s n u r there l.cached in
      let on : InChain s k (word r leaf_next) =
        subst (λ (v : Page). InChain s k (word v leaf_next)) page rest in
      let ascend' = subst KeysAscend e ascend in
      let sides' = subst (AllKeys (Sides p m x.key)) e sides in
      let treated =
        Chain-inserted (word r leaf_next) ys chain on (KeysAscend-append (cells r) ys ascend').1
          (AllKeys-append_right (Sides p m x.key) (cells r) ys sides') in
      let first_behind =
        first_in_chain (λ a. key_at r 0 < a) (word r leaf_next) ys chain on
          (cells-behind r 0 ys ascend' some_cells) in
      let ne : n ≢ k = λ same.
        let p_r =
          ap (λ (v : Page). key_at v 0)
            (same_page s n r p l.cached (ap s.pages same ∙ g.before.cached)) in
        omega arith in
      subst (λ zs. Chain (put k q s) n (insert_sorted x zs)) (sym e)
        (link_before n r ys ne l some_cells more chain on ascend' sides' treated)
