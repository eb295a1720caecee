-- ===== src/Btree/Insert/Write.antt =====
-- Writing one cell of a leaf's page, by a copy or from a row.
use gnaro.Base.{
  ℕ, ◌+◌, ◌*◌, ◌^◌, ◌≤◌, ◌<◌, ◌≡◌, ◌≢◌, ◌⊎◌, ◌∙◌, inl, inr, arith, Bool-cases, ltb, ltb→lt,
  not_ltb→le,
}
use gnaro.Memory.Bytes.{
  Page, word, set_word, blit, blit_in, blit_out, word-ext, word-set_word, set_word_out,
  read_bytes-ext,
}
use gnaro.Row.{
  Row, row_size, row_username_offset, row_username_size, row_email_offset, row_email_size,
}
use gnaro.Row.RoundTrip.{row_at, with_row, with_row_out, row_at-with_row, stored}
use gnaro.Btree.Leaf.View.{Cell, cell_at, key_at, leaf_cell_exact}
use gnaro.Btree.Insert.Cells.{cell_at-ext}

-- `q` is `p` with the cell `x` at place `k`.
pub record Writes (p q : Page) (k : ℕ) (x : Cell) : Type 0 where
  pub at_place : cell_at q k ≡ x
  pub elsewhere : (a : ℕ) → (a < 14 + 297 * k) ⊎ (14 + 297 * k + 297 ≤ a) → q a ≡ p a

-- The other cells are as before, and so is the header.
pub cell_at-Writes :
    (p q : Page) (k j : ℕ) (x : Cell)
    → Writes p q k x
    → k ≤ 13
    → j ≤ 13
    → j ≢ k
    → cell_at q j ≡ cell_at p j
cell_at-Writes p q k j x w hk hj apart =
    cell_at-ext q p j j hj hj λ a small. w.elsewhere (14 + 297 * j + a) (beside a small)
  where
    beside :
        (a : ℕ)
        → a < 297
        → (14 + 297 * j + a < 14 + 297 * k) ⊎ (14 + 297 * k + 297 ≤ 14 + 297 * j + a)
    beside a small = elim (Bool-cases (ltb j k)) [
      | inl before ↦ let lt = ltb→lt j k before in inl (omega arith)
      | inr after ↦ let le = not_ltb→le j k after in inr (omega arith)
    ]

pub header-Writes : (p q : Page) (k a : ℕ) (x : Cell) → Writes p q k x → a < 14 → q a ≡ p a
header-Writes p q k a x w h = w.elsewhere a (inl (omega arith))

-- A cell copied from place `m` of a page.
pub blit-Writes :
    (p source : Page) (k m : ℕ)
    → k ≤ 13
    → m ≤ 13
    → Writes p (blit p (14 + 297 * k) source (14 + 297 * m) 297) k (cell_at source m)
blit-Writes p source k m hk hm = record {
  at_place =
      cell_at-ext (blit p (14 + 297 * k) source (14 + 297 * m) 297) source k m hk hm
        λ a small. blit_in p source (14 + 297 * k) (14 + 297 * m) 297 a small;
  elsewhere = λ a out. blit_out p source (14 + 297 * k) (14 + 297 * m) 297 a out;
}

-- A row lies in 293 bytes.
row_at-ext :
    (p q : Page) (o : ℕ)
    → ((k : ℕ) → k < row_size → p (o + k) ≡ q (o + k))
    → row_at p o ≡ row_at q o
unfolding row_at
row_at-ext p q o h = λ i. record {
  id = word-ext p q (o + 0) (o + 0) (λ k lt. near 0 k (omega arith)) i;
  username =
      read_bytes-ext p q (o + row_username_offset) (o + row_username_offset) row_username_size
        (λ k lt. near row_username_offset k (omega arith)) i;
  email =
      read_bytes-ext p q (o + row_email_offset) (o + row_email_offset) row_email_size
        (λ k lt. near row_email_offset k (omega arith)) i;
}
  where
    near : (u k : ℕ) → u + k < row_size → p (o + u + k) ≡ q (o + u + k)
    near u k lt = let e : o + (u + k) ≡ o + u + k = omega arith in rw e at (h (u + k) lt)

-- A row stored with its key before it.
unfoldable pub with_cell : Page → (k key : ℕ) → Row → Page
with_cell p k key row = set_word (with_row p (14 + 297 * k + 4) row) (14 + 297 * k) key

pub with_cell-Writes :
    (p : Page) (k key : ℕ) (row : Row)
    → k ≤ 13
    → key < 2 ^ 32
    → row.id < 2 ^ 32
    → Writes p (with_cell p k key row) k (record { key = key; row = stored row })
unfolding with_cell cell_at key_at
with_cell-Writes p k key row hk key_fits id_fits = record {
  at_place = rw (leaf_cell_exact k (omega arith)) λ i. record { key = key_eq i; row = row_eq i };
  elsewhere = λ a out.
      set_word_out (with_row p (14 + 297 * k + 4) row) (14 + 297 * k) key a (around a out)
      ∙ with_row_out p (14 + 297 * k + 4) row a (beyond a out);
}
  where
    key_eq :
        word (set_word (with_row p (14 + 297 * k + 4) row) (14 + 297 * k) key) (14 + 297 * k) ≡ key
    key_eq = word-set_word (with_row p (14 + 297 * k + 4) row) (14 + 297 * k) key key_fits

    row_eq :
        row_at (set_word (with_row p (14 + 297 * k + 4) row) (14 + 297 * k) key) (14 + 297 * k + 4)
        ≡ stored row
    row_eq =
        row_at-ext _ (with_row p (14 + 297 * k + 4) row) (14 + 297 * k + 4) (λ a lt.
          set_word_out (with_row p (14 + 297 * k + 4) row) (14 + 297 * k) key (14 + 297 * k + 4 + a)
            (inr (omega arith)))
        ∙ row_at-with_row p (14 + 297 * k + 4) row id_fits

    around :
        (a : ℕ)
        → (a < 14 + 297 * k) ⊎ (14 + 297 * k + 297 ≤ a)
        → (a < 14 + 297 * k) ⊎ (14 + 297 * k + 4 ≤ a)
    around a (inl lt) = inl lt
    around a (inr le) = inr (omega arith)

    beyond :
        (a : ℕ)
        → (a < 14 + 297 * k) ⊎ (14 + 297 * k + 297 ≤ a)
        → (a < 14 + 297 * k + 4) ⊎ (14 + 297 * k + 4 + row_size ≤ a)
    beyond a (inl lt) = inl (omega arith)
    beyond a (inr le) = inr (omega arith)
