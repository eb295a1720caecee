-- ===== src/Row/Print.antt =====
-- `row_print` of src/row.c: the bytes that it prints.
use gnaro.Base.{ℕ, zero, suc, ◌+◌, ◌-◌, ◌/◌, ◌%◌, ◌^◌, List, [], ◌∷◌, ◌++◌, ltb, if◌then◌else◌}
use gnaro.Row.{Row, c_string}

-- The decimal digits of a number in front of a text; ten rounds are enough for 32 bits.
unfoldable pub digits : (rounds : ℕ) → ℕ → List ℕ → List ℕ
digits zero n text = text
digits (suc rounds) n text =
    let more = digits rounds (n / 10) ((b'0' + n % 10) ∷ text) in
    if ltb n 10 then (b'0' + n) ∷ text else more

-- `%d` of a `uint32_t`: from 2 ^ 31 on the argument is taken for a negative `int`.
unfoldable pub print_int : ℕ → List ℕ → List ℕ
unfolding digits
print_int n text = if ltb n (2 ^ 31) then digits 10 n text else b'-' ∷ digits 10 (2 ^ 32 - n) text

-- `printf("(%d, %s, %s)\n", …)`
unfoldable pub row_print : Row → List ℕ
row_print row =
    b'('
    ∷ print_int row.id (
        b','
        ∷ b' '
        ∷ (c_string row.username ++ b',' ∷ b' ' ∷ (c_string row.email ++ b')' ∷ 10 ∷ [])))
