-- ===== src/Btree/Insert/SplitLeaf.antt =====
-- The split of a full leaf, as a whole.
use gnaro.Base.{
  ℕ, suc, ◌+◌, ◌^◌, ◌<◌, ◌≡◌, refl, ◌≢◌, ◌∙◌, sym, ap, inl, inr, arith, none, some, false,
}
use gnaro.Memory.{Pager, ok, put}
use gnaro.Memory.Bytes.{Page, word, set_word}
use gnaro.Memory.Laws.{put_self, update_ne, update_self}
use gnaro.Row.{Row}
use gnaro.Row.RoundTrip.{stored}
use gnaro.Pager.{Env, pager_max_pages}
use gnaro.Pager.Cache.{get_page-Fetched}
use gnaro.Btree.Layout.{leaf_max_cells}
use gnaro.Btree.Leaf.{Cursor, leaf_num_cells, leaf_next}
use gnaro.Btree.Leaf.View.{key_at, IsPlace}
use gnaro.Btree.Insert.{leaf_split}
use gnaro.Btree.Insert.Divide.{both, old_cached}
use gnaro.Btree.Insert.Rounds.{divide_loop-target}
use gnaro.Btree.Insert.SplitCells.{IsSplit}
use gnaro.Btree.Insert.Split.{old_before, new_before, leaf_split-both, divided-IsSplit}

-- What the split leaves in the pager: the two halves; the other pages and the file as before; and
-- one page more, if the new page's number was that of no page in the cache.
pub record SplitState (p : Page) (row : Row) (key old new : ℕ) (s t : Pager) : Type 0 where
  pub left : Page
  pub right : Page
  pub left_cached : t.pages old ≡ some left
  pub right_cached : t.pages new ≡ some right
  pub split : IsSplit p (record { key = key; row = stored row }) new left right
  pub others : (k : ℕ) → k ≢ old → k ≢ new → t.pages k ≡ s.pages k
  pub file : t.file_descriptor ≡ s.file_descriptor
  pub counted : s.pages new ≡ none → t.num_pages ≡ new + 1

both_self :
    (old new : ℕ) (apart : old ≢ new) (t : Pager) (p fresh : Page)
    → t.pages old ≡ some p
    → t.pages new ≡ some fresh
    → t ≡ both old new apart t p fresh
both_self old new apart t p fresh here there =
    sym (put_self new fresh t there) ∙ ap (put new fresh) (sym (put_self old p t here))

-- With the cursor on the key's place in a full leaf, a page left to allocate, and reading that does
-- not fail, the split returns the new page's number and the largest key the leaf had. Then the leaf
-- and the new page hold seven cells each, together the sorted insertion of the new cell into the 13
-- cells that were there; the new leaf follows the old one in the chain and has its parent and its
-- successor; the old one keeps its type, its root mark and its parent.
pub leaf_split-SplitState :
    (env : Env) (fuel : ℕ) (cursor : Cursor) (key : ℕ) (row : Row) (s : Pager) (p : Page)
    → cursor.page_num < s.num_pages
    → s.num_pages < pager_max_pages
    → ((o : ℕ) → env.read_fails o ≡ false)
    → s.pages cursor.page_num ≡ some p
    → p 0 ≡ 1
    → word p leaf_num_cells ≡ leaf_max_cells
    → word p leaf_next < 2 ^ 32
    → IsPlace p leaf_max_cells key cursor.cell_num
    → key < 2 ^ 32
    → row.id < 2 ^ 32
    → (t : Pager) × (leaf_split env (suc fuel) cursor key row s ≡ ok (s.num_pages, key_at p 12) t)
      × SplitState p row key cursor.page_num s.num_pages s t
leaf_split-SplitState env fuel cursor key row s p counted room reads here type full next_fits place
      key_fits id_fits =
    let old = cursor.page_num in
    let new = s.num_pages in
    let apart : old ≢ new = λ e. omega arith in
    let (t, runs, f) = get_page-Fetched env new s room reads in
    let same = both_self old new apart t p f.page (f.others old apart ∙ here) f.cached in
    let fetched = runs ∙ ap (λ u. ok new u) same in
    let (p', q', divided, d) =
      divide_loop-target old new apart t (old_before p new) (new_before p f.page) cursor.cell_num
        key row place.within key_fits id_fits in
    (
      both old new apart t (set_word p' leaf_num_cells 7) (set_word q' leaf_num_cells 7),
      leaf_split-both env fuel new key cursor row s t p f.page apart (omega arith) here type full
          refl fetched p' q' divided,
      record {
        left = set_word p' leaf_num_cells 7;
        right = set_word q' leaf_num_cells 7;
        left_cached =
            old_cached old new apart t (set_word p' leaf_num_cells 7)
              (set_word q' leaf_num_cells 7);
        right_cached =
            update_self (put old (set_word p' leaf_num_cells 7) t).pages new
              (some (set_word q' leaf_num_cells 7));
        split =
            divided-IsSplit p f.page p' q' new cursor.cell_num
              (record { key = key; row = stored row }) full (omega arith) next_fits place d;
        others = λ k ne_old ne_new.
            update_ne (put old (set_word p' leaf_num_cells 7) t).pages new k
              (some (set_word q' leaf_num_cells 7)) ne_new
            ∙ update_ne t.pages old k (some (set_word p' leaf_num_cells 7)) ne_old
            ∙ f.others k ne_new;
        file = f.file;
        counted = λ miss.
            let more = f.counted miss in elim f.bounded [ inl same ↦ omega arith | inr one ↦ one ];
      },
    )
