-- ===== src/Btree/Insert/Divide.antt =====
-- The loop that divides the cells of a full leaf between it and a new one.
use gnaro.Base.{
  ℕ, suc, ◌+◌, ◌-◌, ◌*◌, ◌≤◌, ◌<◌, ◌≡◌, ◌≢◌, ◌∙◌, sym, ap, inl, inr, arith, Bool-cases, some, ltb,
  ◌==◌, if◌then◌else◌, ==→eq, fun_ext,
}
use gnaro.Memory.{Pager, ok, put, update, ◌>>◌, memcpy, store32}
use gnaro.Memory.Bytes.{Page, blit}
use gnaro.Memory.Laws.{memcpy-put, memcpy-ok, store32-put, put-put, update_self, update_ne}
use gnaro.Row.{Row, row_serialize}
use gnaro.Row.RoundTrip.{row_serialize-put}
use gnaro.Btree.Leaf.View.{Cell, cell_at}
use gnaro.Btree.Insert.Write.{Writes, cell_at-Writes, header-Writes, with_cell}

module _ (old new : ℕ) (apart : old ≢ new) (s : Pager) where
  -- The state with page `p` for the old node and `q` for the new one.
  abbrev pub both : (p q : Page) → Pager
  both p q = put new q (put old p s)

  update_swap :
      (p q : Page)
      → update (update s.pages old (some p)) new (some q)
        ≡ update (update s.pages new (some q)) old (some p)
  unfolding update
  update_swap p q = fun_ext λ m. ground arith

  -- It does not matter which of the two is written first.
  pub swap : (p q : Page) → both p q ≡ put old p (put new q s)
  swap p q = λ i. record s { pages = update_swap p q i }

  pub old_cached : (p q : Page) → (both p q).pages old ≡ some p
  old_cached p q =
      update_ne (update s.pages old (some p)) new old (some q) apart
      ∙ update_self s.pages old (some p)

  pub copy_to_new :
      (p q : Page) (k m : ℕ)
      → k ≤ 12
      → m ≤ 12
      → memcpy new (14 + 297 * k) old (14 + 297 * m) 297 (both p q)
        ≡ ok tt (both p (blit q (14 + 297 * k) p (14 + 297 * m) 297))
  copy_to_new p q k m hk hm =
      memcpy-ok new old (both p q) (update_self (put old p s).pages new (some q)) (old_cached p q)
        (14 + 297 * k) (14 + 297 * m) 297 (omega arith) (omega arith)
      ∙ ap (ok tt) (put-put new q (blit q (14 + 297 * k) p (14 + 297 * m) 297) (put old p s))

  pub copy_to_old :
      (p q : Page) (k m : ℕ)
      → k ≤ 12
      → m ≤ 12
      → memcpy old (14 + 297 * k) old (14 + 297 * m) 297 (both p q)
        ≡ ok tt (both (blit p (14 + 297 * k) p (14 + 297 * m) 297) q)
  copy_to_old p q k m hk hm =
      ap (memcpy old (14 + 297 * k) old (14 + 297 * m) 297) (swap p q)
      ∙ memcpy-put old p (put new q s) (14 + 297 * k) (14 + 297 * m) 297 (omega arith) (omega arith)
      ∙ ap (ok tt) (sym (swap (blit p (14 + 297 * k) p (14 + 297 * m) 297) q))

  pub row_to_new :
      (p q : Page) (k key : ℕ) (row : Row)
      → k ≤ 12
      → (row_serialize row new (14 + 297 * k + 4) >> store32 new (14 + 297 * k) key) (both p q)
        ≡ ok tt (both p (with_cell q k key row))
  unfolding with_cell
  row_to_new p q k key row hk = rw (
    row_serialize-put row new (14 + 297 * k + 4) q (put old p s) (omega arith),
    store32-put new _ (put old p s) (14 + 297 * k) key (omega arith),
  )

  pub row_to_old :
      (p q : Page) (k key : ℕ) (row : Row)
      → k ≤ 12
      → (row_serialize row old (14 + 297 * k + 4) >> store32 old (14 + 297 * k) key) (both p q)
        ≡ ok tt (both (with_cell p k key row) q)
  unfolding with_cell
  row_to_old p q k key row hk = rw (swap p q) (
      rw (
        row_serialize-put row old (14 + 297 * k + 4) p (put new q s) (omega arith),
        store32-put old _ (put new q s) (14 + 297 * k) key (omega arith),
        swap (with_cell p k key row) q,
      ))

-- The cells after the insertion of `x` at place `c` of the full leaf `p0`, were there room for them.
unfoldable pub target : (p0 : Page) (c : ℕ) (x : Cell) → ℕ → Cell
target p0 c x i = if ltb i c then cell_at p0 i else if i == c then x else cell_at p0 (i - 1)

-- With the rounds from `n` on done: the first `n` cells of the old node are as they were, the
-- others, and those of the new node, hold what they are to hold; the headers are as they were.
pub record Divided (p0 q0 : Page) (c : ℕ) (x : Cell) (n : ℕ) (p q : Page) : Type 0 where
  pub remaining : (j : ℕ) → j < n → j ≤ 12 → cell_at p j ≡ cell_at p0 j
  pub done_old : (j : ℕ) → n ≤ j → j < 7 → cell_at p j ≡ target p0 c x j
  pub done_new : (j : ℕ) → n ≤ j + 7 → j < 7 → cell_at q j ≡ target p0 c x (j + 7)
  pub header_old : (a : ℕ) → a < 14 → p a ≡ p0 a
  pub header_new : (a : ℕ) → a < 14 → q a ≡ q0 a

module _ (p0 q0 : Page) (c : ℕ) (x : Cell) (i : ℕ) (p q : Page)
    (d : Divided p0 q0 c x (suc i) p q) where
  -- A round for the new node.
  pub Divided-new :
      (q' : Page)
      → 7 ≤ i
      → i ≤ 13
      → Writes q q' (i - 7) (target p0 c x i)
      → Divided p0 q0 c x i p q'
  Divided-new q' h hi w = record {
    remaining = λ j lt small. d.remaining j (omega arith) small;
    done_old = λ j le lt. absurd (omega arith);
    done_new = λ j le lt. elim (Bool-cases (j == i - 7)) [
      | inl here ↦
          let e : j ≡ i - 7 = ==→eq j (i - 7) here in
          let e' : j + 7 ≡ i = omega arith in rw (e', e) w.at_place
      | inr other ↦
          let ne : j ≢ i - 7 = λ e. ground arith in
          cell_at-Writes q q' (i - 7) j (target p0 c x i) w (omega arith) (omega arith) ne
          ∙ d.done_new j (omega arith) lt
    ];
    header_old = d.header_old;
    header_new = λ a lt. header-Writes q q' (i - 7) a (target p0 c x i) w lt ∙ d.header_new a lt;
  }

  -- A round for the old one.
  pub Divided-old : (p' : Page) → i < 7 → Writes p p' i (target p0 c x i) → Divided p0 q0 c x i p' q
  Divided-old p' h w = record {
    remaining = λ j lt small.
        cell_at-Writes p p' i j (target p0 c x i) w (omega arith) (omega arith) (λ e. omega arith)
        ∙ d.remaining j (omega arith) small;
    done_old = λ j le lt. elim (Bool-cases (j == i)) [
      | inl here ↦ let e : j ≡ i = ==→eq j i here in rw e w.at_place
      | inr other ↦
          let ne : j ≢ i = λ e. ground arith in
          cell_at-Writes p p' i j (target p0 c x i) w (omega arith) (omega arith) ne
          ∙ d.done_old j (omega arith) lt
    ];
    done_new = λ j le lt. d.done_new j (omega arith) lt;
    header_old = λ a lt. header-Writes p p' i a (target p0 c x i) w lt ∙ d.header_old a lt;
    header_new = d.header_new;
  }
