-- ===== src/Statement/Text.antt =====
-- What src/statement.c uses of the C library on strings: `strtok`, `atoi`, `strncmp`, `strcmp` and
-- `strcpy`. A string is the list of its bytes before the NUL.
use gnaro.Base.{
  ℕ, zero, suc, ◌+◌, ◌-◌, ◌*◌, ◌^◌, Bool, true, false, Option, none, some, List, [], ◌∷◌, ◌++◌,
  ◌&&◌, ◌||◌, ltb, leb, ◌==◌, if◌then◌else◌, length, drop,
}

-- `strncmp(s, prefix, strlen(prefix)) == 0`
unfoldable pub starts_with : (prefix s : List ℕ) → Bool
starts_with [] s = true
starts_with (p ∷ ps) [] = false
starts_with (p ∷ ps) (c ∷ s) = p == c && starts_with ps s

-- `strcmp(s, t) == 0`
unfoldable pub equals : (s t : List ℕ) → Bool
equals [] [] = true
equals [] (d ∷ t) = false
equals (c ∷ s) [] = false
equals (c ∷ s) (d ∷ t) = c == d && equals s t

unfoldable pub skip_spaces : List ℕ → List ℕ
skip_spaces [] = []
skip_spaces (c ∷ s) = if c == b' ' then skip_spaces s else c ∷ s

-- The bytes up to the next space, and those behind that space.
unfoldable pub token : List ℕ → List ℕ
token [] = []
token (c ∷ s) = if c == b' ' then [] else c ∷ token s

unfoldable pub after_token : List ℕ → List ℕ
after_token [] = []
after_token (c ∷ s) = if c == b' ' then s else after_token s

-- `strtok(_, " ")`: the next token, and what a further call goes on with; `none` is `NULL`.
abbrev pub first_token : List ℕ → Option (List ℕ × List ℕ)
first_token [] = none
first_token (c ∷ s) = some (token (c ∷ s), after_token (c ∷ s))

unfoldable pub strtok : List ℕ → Option (List ℕ × List ℕ)
strtok s = first_token (skip_spaces s)

-- `strcpy(destination, s)` into a char array.
unfoldable pub strcpy : (destination s : List ℕ) → List ℕ
strcpy destination s = s ++ 0 ∷ drop (length s + 1) destination

-- A C `int`: `negsuc n` is -(n + 1).
pub data ℤ : Type 0 where
  pos : ℕ → ℤ
  negsuc : ℕ → ℤ

-- `isspace` in the C locale
unfoldable pub is_space : ℕ → Bool
is_space c = c == 32 || (leb 9 c && leb c 13)

unfoldable pub skip_white : List ℕ → List ℕ
unfolding is_space
skip_white [] = []
skip_white (c ∷ s) = if is_space c then skip_white s else c ∷ s

-- The number that the leading digits write.
unfoldable pub digits_value : (acc : ℕ) → List ℕ → ℕ
digits_value acc [] = acc
digits_value acc (c ∷ s) =
    if leb b'0' c && leb c b'9' then digits_value (acc * 10 + (c - b'0')) s else acc

unfoldable pub negate : ℕ → ℤ
negate zero = pos zero
negate (suc n) = negsuc n

unfoldable pub signed_value : List ℕ → ℤ
unfolding digits_value negate
signed_value [] = pos 0
signed_value (c ∷ s) =
    if c == b'-'
    then negate (digits_value 0 s)
    else if c == b'+'
    then pos (digits_value 0 s)
    else pos (digits_value 0 (c ∷ s))

abbrev pub int_limit : ℕ
int_limit = 2 ^ 31

-- `atoi`: a value that is no `int` makes the call undefined, `none`.
unfoldable pub in_int : ℤ → Option ℤ
in_int (pos n) = if ltb n int_limit then some (pos n) else none
in_int (negsuc n) = if ltb n int_limit then some (negsuc n) else none

unfoldable pub atoi : List ℕ → Option ℤ
unfolding skip_white signed_value in_int
atoi s = in_int (signed_value (skip_white s))
