-- ===== src/Table/Search/Insert.antt =====
-- `statement_execute_insert` of src/statement.c under an internal root, into a leaf with room.
use gnaro.Base.{
  ℕ, suc, ◌+◌, ◌≤◌, ◌<◌, ◌≡◌, ◌≢◌, ◌∙◌, sym, ap, arith, some, false, List, [], ◌∷◌, length, ◌==◌,
  ==→eq, Bool-cases, inl, inr, ◌⊎◌,
}
use mathlib.Core.Path.{subst}
use gnaro.Memory.{Pager, put}
use gnaro.Memory.Bytes.{Page, word, word-ext}
use gnaro.Memory.Laws.{update_self}
use gnaro.Btree.Layout.{leaf_max_cells}
use gnaro.Btree.Leaf.{leaf_num_cells, leaf_next}
use gnaro.Btree.Leaf.View.{Cell, cells}
use gnaro.Btree.Insert.Listing.{insert_sorted}
use gnaro.Btree.Insert.AllKeys.{
  AllKeys, AllKeys-weaken, AllKeys-insert_sorted, AllKeys-append, AllKeys-append_right,
}
use gnaro.Btree.Insert.Ascend.{
  KeysAscend, KeysAscend-insert_sorted, cells-KeysAscend, cells-Ascending,
}
use gnaro.Cursor.Descent.{IsLeaf, Descent}
use gnaro.Table.Single.{has_key}
use gnaro.Table.Session.{length-cells, length-insert_sorted}
use gnaro.Table.Chain.{Chain, last, link}
use gnaro.Table.SelectTree.{same_page}
use gnaro.Table.Search.{IsTable, HasKey, InChain, here, later}
use gnaro.Table.Search.Keys.{IsInserted, HasKey-kept, HasKey-new, OnLeaf-inserted, kept}
use gnaro.Table.Search.Place.{Descent-OnLeaf}
use gnaro.Table.Search.Order.{key_sides}
use gnaro.Table.Search.Keep.{IsTree-kept, Leftmost-kept}
use gnaro.Table.Search.OnPath.{IsSearch-inserted}
use gnaro.Table.Search.Linked.{Sides, Chain-inserted}

-- An absent key differs from all.
pub absent_keys : (key : ℕ) (xs : List Cell) → has_key key xs ≡ false → AllKeys (λ k. k ≢ key) xs
unfolding AllKeys has_key
absent_keys key [] hasnt = tt
absent_keys key (x ∷ xs) hasnt = elim (Bool-cases (x.key == key)) [
  | inl e ↦ let clash = rw e at hasnt in absurd (cc)
  | inr ne ↦ let rest = rw ne at hasnt in (λ e. ground arith, absent_keys key xs rest)
]

-- A leaf on the chain has cells.
pub Chain-some :
    (s : Pager) (k n : ℕ) (p : Page) (xs : List Cell)
    → s.pages k ≡ some p
    → Chain s n xs
    → InChain s k n
    → 0 < word p leaf_num_cells
Chain-some s k n p xs cached (last _ _ r l some_cells _ _) (here _ same) =
    subst (λ (u : Page). 0 < word u leaf_num_cells)
      (same_page s n r p l.cached (ap s.pages same ∙ cached)) some_cells
Chain-some s k n p xs cached (last _ _ r l _ none_next _) (later _ u there more rest) =
    absurd
      (more (ap (λ (v : Page). word v leaf_next) (same_page s n u r there l.cached) ∙ none_next))
Chain-some s k n p xs cached (link _ _ r ys l some_cells _ _ _) (here _ same) =
    subst (λ (u : Page). 0 < word u leaf_num_cells)
      (same_page s n r p l.cached (ap s.pages same ∙ cached)) some_cells
Chain-some s k n p xs cached (link _ _ r ys l _ _ chain _) (later _ u there more rest) =
    Chain-some s k (word r leaf_next) p ys cached chain
      (subst (λ (v : Page). InChain s k (word v leaf_next)) (same_page s n u r there l.cached) rest)

module _ (s : Pager) (k : ℕ) (p q : Page) (x : Cell) (g : IsInserted s k p q x) where
  InChain-kept : (l n : ℕ) → InChain s l n → InChain (put k q s) l n
  InChain-kept l n (here _ same) = here n same
  InChain-kept l n (later _ u there more rest) = elim (Bool-cases (n == k)) [
    | inl at ↦
        let same : n ≡ k = ==→eq n k at in
        let page : u ≡ p = same_page s n u p there (ap s.pages same ∙ g.before.cached) in
        let next : word q leaf_next ≡ word u leaf_next =
          g.next ∙ ap (λ (v : Page). word v leaf_next) (sym page) in
        later n q (ap (put k q s).pages same ∙ update_self s.pages k (some q))
          (λ e. more (sym next ∙ e))
          (subst (InChain (put k q s) l) (sym next) (InChain-kept l (word u leaf_next) rest))
    | inr other ↦
        let ne : n ≢ k = λ same. ground arith in
        later n u (kept s k p q x g n ne ∙ there) more (InChain-kept l (word u leaf_next) rest)
  ]

  -- The invariant after the insertion.
  pub IsTable-inserted :
      (h root m : ℕ) (xs : List Cell)
      → IsTable s h root xs
      → word p leaf_num_cells ≡ suc m
      → Descent s x.key root k
      → AllKeys (λ a. a ≢ x.key) xs
      → IsTable (put k q s) h root (insert_sorted x xs)
  IsTable-inserted h root m xs v count path absent =
      let on = Descent-OnLeaf s x.key k p g.before h root v.tree path in
      record {
        tree = IsTree-kept s k p q x g h root v.tree;
        search = IsSearch-inserted s k p q x g h root v.tree v.search path;
        first = v.first;
        leftmost = Leftmost-kept s k p q x g h root v.first v.tree v.leftmost;
        chain = Chain-inserted s k m p q x g count v.first xs v.chain (v.chained k on) v.ascend (
            AllKeys-weaken (HasKey s h root) (Sides p m x.key) xs
              (λ a has. key_sides s x.key k m p g.before count h root a v.tree v.search path has)
              v.in_tree);
        ascend = KeysAscend-insert_sorted x xs absent v.ascend;
        chained = λ l on_after.
            InChain-kept l v.first
              (v.chained l (OnLeaf-inserted s k p q x g h root l v.tree on_after));
        in_tree =
            AllKeys-insert_sorted (HasKey (put k q s) h root) x xs
              (HasKey-new s k p q x g h root v.tree on)
              (AllKeys-weaken (HasKey s h root) (HasKey (put k q s) h root) xs
                (λ a has. HasKey-kept s k p q x g h root a v.tree has) v.in_tree);
      }

-- What holds of all keys of a chain holds of the keys of a leaf on it.
pub Chain-leaf :
    (P : ℕ → Type 0) (s : Pager) (k n : ℕ) (p : Page) (xs : List Cell)
    → s.pages k ≡ some p
    → Chain s n xs
    → InChain s k n
    → AllKeys P xs
    → AllKeys P (cells p)
Chain-leaf P s k n p xs cached (last _ _ r l _ _ e) (here _ same) all =
    subst (λ u. AllKeys P (cells u)) (same_page s n r p l.cached (ap s.pages same ∙ cached))
      (subst (AllKeys P) e all)
Chain-leaf P s k n p xs cached (last _ _ r l _ none_next _) (later _ u there more rest) all =
    absurd
      (more (ap (λ (v : Page). word v leaf_next) (same_page s n u r there l.cached) ∙ none_next))
Chain-leaf P s k n p xs cached (link _ _ r ys l _ _ _ e) (here _ same) all =
    subst (λ u. AllKeys P (cells u)) (same_page s n r p l.cached (ap s.pages same ∙ cached))
      (AllKeys-append P (cells r) ys (subst (AllKeys P) e all))
Chain-leaf P s k n p xs cached (link _ _ r ys l _ _ chain e) (later _ u there more rest) all =
    Chain-leaf P s k (word r leaf_next) p ys cached chain
      (subst (λ (v : Page). InChain s k (word v leaf_next)) (same_page s n u r there l.cached) rest)
      (AllKeys-append_right P (cells r) ys (subst (AllKeys P) e all))

-- An absent key inserted into a leaf of the table.
pub leaf-IsInserted :
    (s : Pager) (k c : ℕ) (p q : Page) (x : Cell)
    → IsLeaf s k p
    → 0 < word p leaf_num_cells
    → word p leaf_num_cells < leaf_max_cells
    → AllKeys (λ a. a ≢ x.key) (cells p)
    → cells q ≡ insert_sorted x (cells p)
    → ((a : ℕ) → a < 14 → ((a < 6) ⊎ (10 ≤ a)) → q a ≡ p a)
    → IsInserted s k p q x
leaf-IsInserted s k c p q x l some_cells room absent content header =
    let count : word q leaf_num_cells ≡ suc (word p leaf_num_cells) = omega (
      arith,
      length-cells p,
      length-cells q,
      ap (length {0}) content,
      length-insert_sorted x (cells p),
    ) in
    let order : KeysAscend (cells q) =
      subst KeysAscend (sym content)
        (KeysAscend-insert_sorted x (cells p) absent (cells-KeysAscend p l.ascending)) in
    record {
      before = l;
      after = record {
        small = l.small;
        cached = update_self s.pages k (some q);
        type = header 0 (omega arith) (inl (omega arith)) ∙ l.type;
        few = omega (arith, count);
        ascending = cells-Ascending q order;
      };
      content = content;
      some_cells = some_cells;
      some_after = omega (arith, count);
      next =
          word-ext q p leaf_next leaf_next
            λ j lt. header (leaf_next + j) (omega arith) (inr (omega arith));
    }
