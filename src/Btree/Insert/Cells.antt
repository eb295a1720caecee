-- ===== src/Btree/Insert/Cells.antt =====
-- The page of a leaf after an insertion that finds room, cell by cell.
use gnaro.Base.{
  ℕ, zero, suc, ◌+◌, ◌-◌, ◌*◌, ◌^◌, ◌≤◌, ◌<◌, ◌≡◌, ◌∙◌, ap, inl, inr, arith, ltb, leb, ◌&&◌, ◌⊎◌,
  if◌then◌else◌, fun_ext,
}
use gnaro.Memory.{Pager, ok, put}
use gnaro.Memory.Bytes.{
  Page, word, set_word, blit, word-ext, read_bytes, read_bytes-ext, set_word_out, word-set_word,
}
use gnaro.Memory.Laws.{memcpy-put}
use gnaro.Row.{Row, row_username_size, row_email_size, row_username_offset, row_email_offset}
use gnaro.Row.RoundTrip.{row_at, with_row, with_row_out, stored, row_at-with_row}
use gnaro.Btree.Layout.{leaf_max_cells}
use gnaro.Btree.Leaf.{leaf_num_cells}
use gnaro.Btree.Leaf.View.{key_at, cell_at, leaf_cell_exact}
use gnaro.Btree.Insert.{leaf_make_room}

-- The page with `k` cells from `c` on moved one to the right.
unfoldable pub shifted : Page → (c k : ℕ) → Page
shifted p c k a =
    if leb (14 + 297 * (c + 1)) a && ltb a (14 + 297 * (c + 1 + k)) then p (a - 297) else p a

shifted-blit :
    (p : Page) (c k : ℕ)
    → shifted (blit p (14 + 297 * (c + suc k)) p (14 + 297 * (c + k)) 297) c k ≡ shifted p c (suc k)
unfolding shifted blit
shifted-blit p c k = fun_ext λ a. ground arith

pub leaf_make_room-put :
    (k node c : ℕ) (p : Page) (s : Pager)
    → c + k < leaf_max_cells
    → leaf_make_room k node c (put node p s) ≡ ok tt (put node (shifted p c k) s)
unfolding leaf_make_room
leaf_make_room-put zero node c p s h = ap (λ q. ok tt (put node q s)) same
  where
    same : p ≡ shifted p c zero
    same = unfold shifted in fun_ext λ a. ground arith
leaf_make_room-put (suc k) node c p s h =
    rw
      (
        leaf_cell_exact (c + suc k) (omega arith),
        leaf_cell_exact (c + k) (omega arith),
        memcpy-put node p s (14 + 297 * (c + suc k)) (14 + 297 * (c + k)) 297 (omega arith)
            (omega arith),
      )
      (leaf_make_room-put k node c _ s (omega arith)
        ∙ ap (λ q. ok tt (put node q s)) (shifted-blit p c k))

-- A cell is what its bytes say.
pub cell_at-ext :
    (p q : Page) (i j : ℕ)
    → i ≤ 13
    → j ≤ 13
    → ((k : ℕ) → k < 297 → p (14 + 297 * i + k) ≡ q (14 + 297 * j + k))
    → cell_at p i ≡ cell_at q j
unfolding cell_at row_at
cell_at-ext p q i j hi hj h =
    rw (leaf_cell_exact i (omega arith), leaf_cell_exact j (omega arith))
      λ t. record {
        key = key_eq t;
        row = record { id = id_eq t; username = name_eq t; email = mail_eq t };
      }
  where
    near : (u v k : ℕ) → k < 297 → u ≡ 14 + 297 * i + k → v ≡ 14 + 297 * j + k → p u ≡ q v
    near u v k lt eu ev = rw (eu, ev) (h k lt)

    key_eq : word p (14 + 297 * i) ≡ word q (14 + 297 * j)
    key_eq = word-ext p q (14 + 297 * i) (14 + 297 * j) λ k lt. h k (omega arith)

    id_eq : word p (14 + 297 * i + 4 + 0) ≡ word q (14 + 297 * j + 4 + 0)
    id_eq =
        word-ext p q (14 + 297 * i + 4 + 0) (14 + 297 * j + 4 + 0)
          λ k lt. near _ _ (4 + k) (omega arith) (omega arith) (omega arith)

    name_eq :
        read_bytes p (14 + 297 * i + 4 + row_username_offset) row_username_size
        ≡ read_bytes q (14 + 297 * j + 4 + row_username_offset) row_username_size
    name_eq =
        read_bytes-ext p q (14 + 297 * i + 4 + row_username_offset)
          (14 + 297 * j + 4 + row_username_offset) row_username_size
          λ k lt. near _ _ (8 + k) (omega arith) (omega arith) (omega arith)

    mail_eq :
        read_bytes p (14 + 297 * i + 4 + row_email_offset) row_email_size
        ≡ read_bytes q (14 + 297 * j + 4 + row_email_offset) row_email_size
    mail_eq =
        read_bytes-ext p q (14 + 297 * i + 4 + row_email_offset)
          (14 + 297 * j + 4 + row_email_offset) row_email_size
          λ k lt. near _ _ (41 + k) (omega arith) (omega arith) (omega arith)

-- The page after an insertion at cell `c` of a leaf with `n` cells.
unfoldable pub inserted : Page → (n c key : ℕ) → Row → Page
inserted p n c key row =
    with_row (set_word (set_word (shifted p c (n - c)) leaf_num_cells (n + 1)) (14 + 297 * c) key)
      (14 + 297 * c + 4) row

module _ (p : Page) (n c key : ℕ) (row : Row) (within : c ≤ n) (room : n < leaf_max_cells) where
  -- A byte outside cell `c` and the counter is where the shift has put it.
  inserted_out :
      (a : ℕ)
      → ((a < 14 + 297 * c) ⊎ (14 + 297 * c + 297 ≤ a))
      → ((a < 6) ⊎ (10 ≤ a))
      → inserted p n c key row a ≡ shifted p c (n - c) a
  unfolding inserted
  inserted_out a far low =
      with_row_out _ (14 + 297 * c + 4) row a (omega arith)
      ∙ set_word_out _ (14 + 297 * c) key a (omega arith)
      ∙ set_word_out (shifted p c (n - c)) leaf_num_cells (n + 1) a low

  pub cell_at-inserted_below : (i : ℕ) → i < c → cell_at (inserted p n c key row) i ≡ cell_at p i
  unfolding shifted
  cell_at-inserted_below i h =
      cell_at-ext (inserted p n c key row) p i i (omega arith) (omega arith)
        λ k lt. inserted_out (14 + 297 * i + k) (inl (omega arith)) (omega arith) ∙ ground arith

  pub cell_at-inserted_above :
      (i : ℕ) → c ≤ i → i < n → cell_at (inserted p n c key row) (suc i) ≡ cell_at p i
  unfolding shifted
  cell_at-inserted_above i h lt =
      cell_at-ext (inserted p n c key row) p (suc i) i (omega arith) (omega arith) λ k small.
        inserted_out (14 + 297 * suc i + k) (inr (omega arith)) (omega arith) ∙ moved k small
    where
      moved : (k : ℕ) → k < 297 → shifted p c (n - c) (14 + 297 * suc i + k) ≡ p (14 + 297 * i + k)
      moved k small =
          let back : 14 + 297 * suc i + k - 297 ≡ 14 + 297 * i + k = omega arith in
          ground (arith, back)

  pub cell_at-inserted_self :
      key < 2 ^ 32
      → row.id < 2 ^ 32
      → cell_at (inserted p n c key row) c ≡ record { key = key; row = stored row }
  unfolding cell_at inserted key_at
  cell_at-inserted_self fits fits' =
      rw (leaf_cell_exact c (omega arith)) λ i. record { key = key_eq i; row = row_eq i }
    where
      p2 : Page
      p2 = set_word (shifted p c (n - c)) leaf_num_cells (n + 1)

      p3 : Page
      p3 = set_word p2 (14 + 297 * c) key

      key_eq : word (with_row p3 (14 + 297 * c + 4) row) (14 + 297 * c) ≡ key
      key_eq =
          word-ext _ p3 (14 + 297 * c) (14 + 297 * c)
            (λ k lt. with_row_out p3 (14 + 297 * c + 4) row (14 + 297 * c + k) (inl (omega arith)))
          ∙ word-set_word p2 (14 + 297 * c) key fits

      row_eq : row_at (with_row p3 (14 + 297 * c + 4) row) (14 + 297 * c + 4) ≡ stored row
      row_eq = row_at-with_row p3 (14 + 297 * c + 4) row fits'

  pub num_cells-inserted : word (inserted p n c key row) leaf_num_cells ≡ n + 1
  unfolding inserted
  num_cells-inserted =
      word-ext _ (set_word (shifted p c (n - c)) leaf_num_cells (n + 1)) leaf_num_cells
        leaf_num_cells
        (λ k lt.
          with_row_out _ (14 + 297 * c + 4) row (leaf_num_cells + k) (inl (omega arith))
          ∙ set_word_out _ (14 + 297 * c) key (leaf_num_cells + k) (inl (omega arith)))
      ∙ word-set_word (shifted p c (n - c)) leaf_num_cells (n + 1) (omega arith)

  -- Of the header only the counter changes.
  pub inserted_header : (a : ℕ) → a < 14 → ((a < 6) ⊎ (10 ≤ a)) → inserted p n c key row a ≡ p a
  unfolding shifted
  inserted_header a h low = inserted_out a (inl (omega arith)) low ∙ ground arith
