-- ===== src/Statement/Printed.antt =====
-- What `row_print` prints of an id, `atoi` reads back.
use gnaro.Base.{
  ℕ, zero, suc, ◌+◌, ◌-◌, ◌*◌, ◌/◌, ◌%◌, ◌^◌, ◌<◌, ◌≡◌, refl, ◌∙◌, ap, arith, List, [], ◌∷◌, ◌++◌,
  true, ltb, leb, some, Bool-cases, inl, inr, drop, lt→ltb, le→leb, ltb→lt, not_ltb→le,
}
use native.Mathlib.Nat.{pow-succ'}
use gnaro.Row.{Row, c_string}
use gnaro.Row.Print.{digits, print_int, row_print}
use gnaro.Statement.Text.{
  pos, is_space, skip_white, digits_value, signed_value, in_int, int_limit, atoi,
}

-- A digit extends the number read so far.
digits_value_digit :
    (n d : ℕ) (text : List ℕ)
    → d < 10
    → digits_value n ((b'0' + d) ∷ text) ≡ digits_value (n * 10 + d) text
unfolding digits_value
digits_value_digit n d text h =
    let low : leb b'0' (b'0' + d) ≡ true = le→leb b'0' (b'0' + d) (omega arith) in
    let high : leb (b'0' + d) b'9' ≡ true = le→leb (b'0' + d) b'9' (omega arith) in
    let value : n * 10 + (b'0' + d - b'0') ≡ n * 10 + d = omega arith in rw (low, high, value) refl

-- The digits of a number, read from 0, give that number.
digits_value-digits :
    (rounds n : ℕ) (text : List ℕ)
    → n < 10 ^ rounds
    → digits_value 0 (digits rounds n text) ≡ digits_value n text
unfolding digits
digits_value-digits zero n text h = let none : n ≡ 0 = omega arith in rw none refl
digits_value-digits (suc rounds) n text h = elim (Bool-cases (ltb n 10)) [
  | inl one ↦
      rw one (
        digits_value_digit 0 n text (ltb→lt n 10 one) ∙ ap (λ m. digits_value m text) (omega arith))
  | inr more ↦
      let power : 10 ^ suc rounds ≡ 10 * 10 ^ rounds = pow-succ' 10 rounds in
      let ten = not_ltb→le n 10 more in
      let fewer : n / 10 < 10 ^ rounds = omega arith in
      let value : n / 10 * 10 + n % 10 ≡ n = omega arith in
      rw more (
        digits_value-digits rounds (n / 10) ((b'0' + n % 10) ∷ text) fewer
        ∙ digits_value_digit (n / 10) (n % 10) text (omega arith)
        ∙ ap (λ m. digits_value m text) value)
]

-- The first byte of a text is a digit.
abbrev StartsWithDigit : List ℕ → Type 0
StartsWithDigit s = (d : ℕ) × (t : List ℕ) × (d < 10) × (s ≡ (b'0' + d) ∷ t)

digits-StartsWithDigit :
    (rounds n : ℕ) (text : List ℕ) → StartsWithDigit text → StartsWithDigit (digits rounds n text)
unfolding digits
digits-StartsWithDigit zero n text h = h
digits-StartsWithDigit (suc rounds) n text h = elim (Bool-cases (ltb n 10)) [
  | inl one ↦ (n, text, ltb→lt n 10 one, rw one refl)
  | inr more ↦ rw more (
      digits-StartsWithDigit rounds (n / 10) ((b'0' + n % 10) ∷ text)
        (n % 10, text, omega arith, refl))
]

-- A positive number of rounds writes at least one digit.
some_digits-StartsWithDigit :
    (rounds n : ℕ) (text : List ℕ) → StartsWithDigit (digits (suc rounds) n text)
unfolding digits
some_digits-StartsWithDigit rounds n text = elim (Bool-cases (ltb n 10)) [
  | inl one ↦ (n, text, ltb→lt n 10 one, rw one refl)
  | inr more ↦ rw more (
      digits-StartsWithDigit rounds (n / 10) ((b'0' + n % 10) ∷ text)
        (n % 10, text, omega arith, refl))
]

-- Before a digit there is neither space nor sign to skip.
signed_value-digit :
    (s : List ℕ) → StartsWithDigit s → signed_value (skip_white s) ≡ pos (digits_value 0 s)
unfolding signed_value skip_white is_space
signed_value-digit s (d, t, h, e) = rw e (digit d t h)
  where
    digit :
        (d : ℕ) (t : List ℕ)
        → d < 10
        → signed_value (skip_white ((b'0' + d) ∷ t)) ≡ pos (digits_value 0 ((b'0' + d) ∷ t))
    digit d t h = ground arith

-- A row's id below 2 ^ 31, as `row_print` prints it behind its bracket, is read by `atoi` as that id.
pub atoi-row_print :
    (row : Row) → row.id < int_limit → atoi (drop 1 (row_print row)) ≡ some (pos row.id)
unfolding atoi in_int row_print print_int
atoi-row_print row h =
    rw
      (
        lt→ltb row.id int_limit h,
        signed_value-digit (digits 10 row.id after) (some_digits-StartsWithDigit 9 row.id after),
        digits_value-digits 10 row.id after (omega arith),
      )
      (ground arith)
  where
    after : List ℕ
    after =
        b','
        ∷ b' '
        ∷ (c_string row.username ++ b',' ∷ b' ' ∷ (c_string row.email ++ b')' ∷ 10 ∷ []))
