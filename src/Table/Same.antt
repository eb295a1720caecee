-- ===== src/Table/Same.antt =====
-- A leaf's content depends only on the 4096 bytes of its page.
use gnaro.Base.{ℕ, zero, suc, ◌+◌, ◌≤◌, ◌<◌, ◌≡◌, refl, ◌∙◌, arith, ◌∷◌, some}
use gnaro.Memory.{Pager, page_size}
use gnaro.Memory.Bytes.{Page, word, word-ext, read_bytes-ext}
use gnaro.Row.{row_size, row_username_offset, row_username_size, row_email_offset, row_email_size}
use gnaro.Row.RoundTrip.{row_at}
use gnaro.Btree.Layout.{leaf_max_cells}
use gnaro.Btree.Leaf.{leaf_num_cells, leaf_next, leaf_key, leaf_value}
use gnaro.Btree.Leaf.View.{key_at, cell_at, cells_from, cells, leaf_cell_fits}
use gnaro.Database.{root_page_num}
use gnaro.Table.Single.{IsSingle}

module _ (p q : Page) (same : (a : ℕ) → a < page_size → q a ≡ p a) where
  word_same : (o : ℕ) → o + 4 ≤ page_size → word q o ≡ word p o
  word_same o h = word-ext q p o o λ k lt. same (o + k) (omega arith)

  row_at_same : (o : ℕ) → o + row_size ≤ page_size → row_at q o ≡ row_at p o
  unfolding row_at
  row_at_same o h = λ i. record {
    id = word_same (o + 0) (omega arith) i;
    username =
        read_bytes-ext q p (o + row_username_offset) (o + row_username_offset) row_username_size
          (λ k lt. same (o + row_username_offset + k) (omega arith)) i;
    email =
        read_bytes-ext q p (o + row_email_offset) (o + row_email_offset) row_email_size
          (λ k lt. same (o + row_email_offset + k) (omega arith)) i;
  }

  key_at_same : (i : ℕ) → i < leaf_max_cells → key_at q i ≡ key_at p i
  unfolding key_at
  key_at_same i h = word_same (leaf_key i) (omega (arith, leaf_cell_fits i h))

  cells_from_same : (i n : ℕ) → i + n ≤ leaf_max_cells → cells_from q i n ≡ cells_from p i n
  unfolding cells_from cell_at
  cells_from_same i zero h = refl
  cells_from_same i (suc n) h =
      let key = key_at_same i (omega arith) in
      let row = row_at_same (leaf_value i) (omega (arith, leaf_cell_fits i (omega arith))) in
      let rest = cells_from_same (suc i) n (omega arith) in
      λ j. record { key = key j; row = row j } ∷ rest j

  num_cells_same : word q leaf_num_cells ≡ word p leaf_num_cells
  num_cells_same = word_same leaf_num_cells (omega arith)

  pub cells_same : word p leaf_num_cells ≤ leaf_max_cells → cells q ≡ cells p
  unfolding cells
  cells_same few = rw num_cells_same (cells_from_same 0 (word p leaf_num_cells) (omega arith))

  -- So the invariant of a table of one leaf carries over to a copy of its page.
  pub IsSingle-same : (s t : Pager) → IsSingle s p → t.pages root_page_num ≡ some q → IsSingle t q
  IsSingle-same s t v cached = record {
    cached = cached;
    type = same 0 (omega arith) ∙ v.type;
    root_mark = same 1 (omega arith) ∙ v.root_mark;
    few = rw num_cells_same v.few;
    ascending = rw num_cells_same λ i j lt in_leaf.
        rw (key_at_same i (omega (arith, v.few)), key_at_same j (omega (arith, v.few)))
          (v.ascending i j lt in_leaf);
    next = word_same leaf_next (omega arith) ∙ v.next;
  }
