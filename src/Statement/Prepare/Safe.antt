-- ===== src/Statement/Prepare/Safe.antt =====
-- Preparing a statement never writes past the char arrays of its row.
use gnaro.Base.{
  ℕ, zero, suc, ◌+◌, ◌-◌, ◌≤◌, ◌<◌, ◌≡◌, refl, ◌∙◌, ap, inl, inr, Option, some, none, arith, ltb,
  Bool-cases, List, [], ◌∷◌, length, drop, length-append, not_ltb→le,
}
use gnaro.Row.{Row, IsRow}
use gnaro.Statement.Text.{
  ℤ, pos, negsuc, int_limit, starts_with, equals, strcpy, atoi, in_int, signed_value, skip_white,
}
use gnaro.Statement.Prepare.{
  StatementPrepareResult, Statement, insert, fill, check_columns, query_columns, prepare_columns,
  statement_prepare_insert, statement_prepare, bytes,
}

length-drop : (n : ℕ) (s : List ℕ) → length (drop n s) ≡ length s - n
length-drop zero s = omega arith
length-drop (suc n) [] = omega arith
length-drop (suc n) (c ∷ s) = omega (arith, length-drop n s)

-- A string that fits leaves the array's length as it is.
pub length-strcpy : (d s : List ℕ) → length s < length d → length (strcpy d s) ≡ length d
unfolding strcpy
length-strcpy d s h =
    omega (arith, length-append s (0 ∷ drop (length s + 1) d), length-drop (length s + 1) d)

in_int-lt : (i : ℤ) (n : ℕ) → in_int i ≡ some (pos n) → n < int_limit
unfolding in_int
in_int-lt (pos m) n h = ground arith
in_int-lt (negsuc m) n h = ground arith

pub atoi-lt : (s : List ℕ) (n : ℕ) → atoi s ≡ some (pos n) → n < int_limit
unfolding atoi
atoi-lt s n h = in_int-lt (signed_value (skip_white s)) n h

check_columns-IsRow :
    (id : ℤ) (u e : List ℕ) (statement : Statement)
    → ((n : ℕ) → id ≡ pos n → n < int_limit)
    → IsRow statement.row_to_insert
    → IsRow (check_columns id u e statement).1.row_to_insert
unfolding check_columns
check_columns-IsRow (negsuc n) u e statement small v = v
check_columns-IsRow (pos n) u e statement small v = elim (Bool-cases (ltb 32 (length u))) [
  | inl long ↦ rw long v
  | inr short ↦ elim (Bool-cases (ltb 255 (length e))) [
    | inl long ↦ rw (short, long) v
    | inr short' ↦
        rw (short, short')
          (filled (not_ltb→le 32 (length u) short) (not_ltb→le 255 (length e) short'))
  ]
]
  where
    r : Row
    r = statement.row_to_insert

    filled : length u ≤ 32 → length e ≤ 255 → IsRow (fill statement n u e).row_to_insert
    filled hu he =
        unfold fill in
        record {
          id = let lt = small n refl in omega arith;
          username = length-strcpy r.username u (omega (arith, v.username)) ∙ v.username;
          email = length-strcpy r.email e (omega (arith, v.email)) ∙ v.email;
        }

-- The row of the statement behind a result that is defined.
abbrev pub RowIsSafe : Option (StatementPrepareResult × Statement) → Type 0
RowIsSafe none = Unit
RowIsSafe (some (r, st)) = IsRow st.row_to_insert

prepare_columns-IsRow :
    (columns : Option (List ℕ × List ℕ × List ℕ)) (statement : Statement)
    → IsRow statement.row_to_insert
    → RowIsSafe (prepare_columns columns statement)
unfolding prepare_columns
prepare_columns-IsRow none statement v = v
prepare_columns-IsRow (some (i, u, e)) statement v = checked (atoi i) refl
  where
    checked : (id : Option ℤ) → atoi i ≡ id → RowIsSafe (prepare_columns (some (i, u, e)) statement)
    checked none h = rw h tt
    checked (some id) h = rw h (
        check_columns-IsRow id u e statement (λ n is. atoi-lt i n (h ∙ ap (λ (j : ℤ). some j) is))
          v)

-- Whatever the query and whatever the result, if the arrays of the statement's row have their sizes
-- and its id fits its type before `statement_prepare`, they do so after it: no string is written
-- past its array.
pub statement_prepare-IsRow :
    (query : List ℕ) (statement : Statement)
    → IsRow statement.row_to_insert
    → RowIsSafe (statement_prepare query statement)
unfolding statement_prepare statement_prepare_insert
statement_prepare-IsRow query statement v = elim (Bool-cases (starts_with (bytes "insert") query)) [
  | inl is_insert ↦
      rw is_insert
        (prepare_columns-IsRow (query_columns query) (record statement { type = insert }) v)
  | inr other ↦ elim (Bool-cases (equals query (bytes "select"))) [
    | inl is_select ↦ rw (other, is_select) v
    | inr neither ↦ rw (other, neither) v
  ]
]
