-- ===== src/Btree/Insert/Split.antt =====
-- `btree_node_leaf_split_and_insert` of src/btree.c up to the counters: a full leaf and a new one.
use gnaro.Base.{
  ℕ, suc, ◌+◌, ◌^◌, ◌≤◌, ◌<◌, ◌≡◌, refl, ◌≢◌, ◌∙◌, sym, ap, inl, inr, arith, some, ◌⊎◌,
}
use gnaro.Memory.{Pager, ok, put, page_size, load32, store32}
use gnaro.Memory.Bytes.{
  Page, word, set_word, word-ext, set_word_out, word-set_word, word-set_word_out,
  word-set_word_wrap,
}
use gnaro.Memory.Laws.{load32-ok, store32-put}
use gnaro.Row.{Row}
use gnaro.Pager.{Env, pager_max_pages, pager_get_page}
use gnaro.Pager.Cache.{get_page-cached, get_unused_page_num_lem}
use gnaro.Btree.Node.{node_parent}
use gnaro.Btree.Leaf.{Cursor, leaf_num_cells, leaf_next}
use gnaro.Btree.Insert.SplitCells.{IsSplit, cells-split}
use gnaro.Btree.Leaf.Init.{leaf_page_type, leaf_page_root, leaf_page, leaf_init-put}
use gnaro.Btree.Leaf.View.{Cell, key_at, IsPlace}
use gnaro.Btree.Root.MaxKey.{node_get_max_key-leaf}
use gnaro.Btree.Insert.{leaf_split, divide_loop}
use gnaro.Btree.Insert.Divide.{both, old_cached, swap, Divided}

module _ (old new : ℕ) (apart : old ≢ new) (s : Pager) (p q : Page) where
  load_old :
      (o : ℕ)
      → o + 4 ≤ page_size
      → load32 old o (both old new apart s p q) ≡ ok (word p o) (both old new apart s p q)
  load_old o h = load32-ok old (both old new apart s p q) (old_cached old new apart s p q) o h

  store_new :
      (o v : ℕ)
      → o + 4 ≤ page_size
      → store32 new o v (both old new apart s p q) ≡ ok tt (both old new apart s p (set_word q o v))
  store_new o v h = store32-put new q (put old p s) o v h

  store_old :
      (o v : ℕ)
      → o + 4 ≤ page_size
      → store32 old o v (both old new apart s p q) ≡ ok tt (both old new apart s (set_word p o v) q)
  store_old o v h =
      ap (store32 old o v) (swap old new apart s p q)
      ∙ store32-put old p (put new q s) o v h
      ∙ ap (ok tt) (sym (swap old new apart s (set_word p o v) q))

-- The two pages before the loop that divides the cells.
abbrev pub old_before : Page → (new : ℕ) → Page
old_before p new = set_word p leaf_next new

abbrev pub new_before : (p fresh : Page) → Page
new_before p fresh =
    set_word (set_word (leaf_page fresh) node_parent (word p node_parent)) leaf_next
      (word p leaf_next)

module _ (env : Env) (fuel new key : ℕ) (cursor : Cursor) (row : Row) (s t : Pager) (p fresh : Page)
    (apart : cursor.page_num ≢ new) (small : cursor.page_num < pager_max_pages)
    (here : s.pages cursor.page_num ≡ some p) (type : p 0 ≡ 1) (full : word p leaf_num_cells ≡ 13)
    (counted : s.num_pages ≡ new)
    (fetched : pager_get_page env new s ≡ ok new (both cursor.page_num new apart t p fresh))
    (p' q' : Page)
    (divided : divide_loop 14 cursor.page_num new cursor.cell_num key row
        (both cursor.page_num new apart t (old_before p new) (new_before p fresh))
      ≡ ok tt (both cursor.page_num new apart t p' q')) where
  pub leaf_split-both :
      leaf_split env (suc fuel) cursor key row s
      ≡ ok
          (new, key_at p 12)
          (both cursor.page_num new apart t
            (set_word p' leaf_num_cells 7)
            (set_word q' leaf_num_cells 7))
  unfolding leaf_split
  leaf_split-both = rw (
    get_page-cached env cursor.page_num s small here,
    node_get_max_key-leaf env fuel cursor.page_num 12 s p here type full (omega arith),
    get_unused_page_num_lem s new counted,
    fetched,
    leaf_init-put new fresh (put cursor.page_num p t),
    load_old cursor.page_num new apart t p (leaf_page fresh) node_parent (omega arith),
    store_new cursor.page_num new apart t p (leaf_page fresh) node_parent (word p node_parent)
        (omega arith),
    load_old cursor.page_num new apart t p
        (set_word (leaf_page fresh) node_parent (word p node_parent)) leaf_next (omega arith),
    store_new cursor.page_num new apart t p _ leaf_next (word p leaf_next) (omega arith),
    store_old cursor.page_num new apart t p (new_before p fresh) leaf_next new (omega arith),
    divided,
    store_old cursor.page_num new apart t p' q' leaf_num_cells 7 (omega arith),
    store_new cursor.page_num new apart t (set_word p' leaf_num_cells 7) q' leaf_num_cells 7
        (omega arith),
  )

module _ (p fresh p' q' : Page) (new c : ℕ) (x : Cell) (full : word p leaf_num_cells ≡ 13)
    (new_fits : new < 2 ^ 32) (next_fits : word p leaf_next < 2 ^ 32) (place : IsPlace p 13 x.key c)
    (d : Divided (old_before p new) (new_before p fresh) c x 0 p' q') where
  -- A word of the header behind the counter is that of before the loop; so is one in front of it.
  word_kept :
      (r r' : Page) (u : ℕ)
      → ((a : ℕ) → a < 14 → r' a ≡ r a)
      → (u ≡ node_parent) ⊎ (u ≡ leaf_next)
      → word (set_word r' leaf_num_cells 7) u ≡ word r u
  word_kept r r' u same (inl e) = rw e (
      word-set_word_out r' leaf_num_cells 7 node_parent (inl (omega arith))
      ∙ word-ext r' r node_parent node_parent λ k lt. same (node_parent + k) (omega arith))
  word_kept r r' u same (inr e) = rw e (
      word-set_word_out r' leaf_num_cells 7 leaf_next (inr (omega arith))
      ∙ word-ext r' r leaf_next leaf_next λ k lt. same (leaf_next + k) (omega arith))

  -- A byte of the new page's header in front of the parent.
  new_byte : (a v : ℕ) → a < 2 → leaf_page fresh a ≡ v → set_word q' leaf_num_cells 7 a ≡ v
  new_byte a v h e =
      set_word_out q' leaf_num_cells 7 a (inl (omega arith))
      ∙ d.header_new a (omega arith)
      ∙ set_word_out (set_word (leaf_page fresh) node_parent (word p node_parent)) leaf_next
          (word p leaf_next) a (inl (omega arith))
      ∙ set_word_out (leaf_page fresh) node_parent (word p node_parent) a (inl (omega arith))
      ∙ e

  pub divided-IsSplit :
      IsSplit p x new (set_word p' leaf_num_cells 7) (set_word q' leaf_num_cells 7)
  divided-IsSplit = record {
    content =
        cells-split p (old_before p new) (new_before p fresh) p' q' c x full
          (λ a far. set_word_out p leaf_next new a (inr (omega arith))) place d;
    count_old = word-set_word p' leaf_num_cells 7 (omega arith);
    count_new = word-set_word q' leaf_num_cells 7 (omega arith);
    next_old =
        word_kept (old_before p new) p' leaf_next d.header_old (inr refl)
        ∙ word-set_word p leaf_next new new_fits;
    next_new =
        word_kept (new_before p fresh) q' leaf_next d.header_new (inr refl)
        ∙ word-set_word _ leaf_next (word p leaf_next) next_fits;
    parent_new =
        word_kept (new_before p fresh) q' node_parent d.header_new (inl refl)
        ∙ word-set_word_out _ leaf_next (word p leaf_next) node_parent (inl (omega arith))
        ∙ word-set_word_wrap (leaf_page fresh) node_parent (word p node_parent);
    header_old = λ a lt.
        set_word_out p' leaf_num_cells 7 a (inl (omega arith))
        ∙ d.header_old a (omega arith)
        ∙ set_word_out p leaf_next new a (inl (omega arith));
    type_new = new_byte 0 1 (omega arith) (leaf_page_type fresh);
    root_new = new_byte 1 0 (omega arith) (leaf_page_root fresh);
  }
