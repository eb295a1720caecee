-- ===== src/Input/Lines.antt =====
-- What reading a line gives, and that it shortens the input.
use gnaro.Base.{
  ℕ, ◌≤◌, ◌≡◌, refl, ap, ◌≢◌, ◌==◌, inl, inr, arith, Bool-cases, ne→not_==, some, List, [], ◌∷◌,
  ◌++◌, length,
}
use gnaro.Row.{c_string}
use gnaro.Input.{getline, after_line, without_last, input_read}

-- No byte of the list is a newline or a NUL.
pub data IsText : List ℕ → Type 0 where
  nothing : IsText []
  more : (c : ℕ) (cs : List ℕ) → c ≢ 10 → c ≢ 0 → IsText cs → IsText (c ∷ cs)

getline-text : (line rest : List ℕ) → IsText line → getline (line ++ 10 ∷ rest) ≡ line ++ 10 ∷ []
unfolding getline
getline-text [] rest nothing = refl
getline-text (c ∷ cs) rest (more _ _ a b t) = rw (ne→not_== c 10 a, getline-text cs rest t) refl

after_line-text : (line rest : List ℕ) → IsText line → after_line (line ++ 10 ∷ rest) ≡ rest
unfolding after_line
after_line-text [] rest nothing = refl
after_line-text (c ∷ cs) rest (more _ _ a b t) = rw (ne→not_== c 10 a) (after_line-text cs rest t)

getline-last :
    (line : List ℕ) (c : ℕ) → IsText line → c ≢ 10 → getline (line ++ c ∷ []) ≡ line ++ c ∷ []
unfolding getline
getline-last [] c nothing h = rw (ne→not_== c 10 h) refl
getline-last (d ∷ ds) c (more _ _ a b t) h = rw (ne→not_== d 10 a, getline-last ds c t h) refl

after_line-last : (line : List ℕ) (c : ℕ) → IsText line → c ≢ 10 → after_line (line ++ c ∷ []) ≡ []
unfolding after_line
after_line-last [] c nothing h = rw (ne→not_== c 10 h) refl
after_line-last (d ∷ ds) c (more _ _ a b t) h = rw (ne→not_== d 10 a) (after_line-last ds c t h)

without_last-append : (line : List ℕ) (c : ℕ) → without_last (line ++ c ∷ []) ≡ line
unfolding without_last
without_last-append [] c = refl
without_last-append (d ∷ []) c = refl
without_last-append (d ∷ e ∷ ds) c = ap (λ xs. d ∷ xs) (without_last-append (e ∷ ds) c)

c_string-text : (line : List ℕ) → IsText line → c_string line ≡ line
unfolding c_string
c_string-text [] nothing = refl
c_string-text (c ∷ cs) (more _ _ a b t) = rw (ne→not_== c 0 b, c_string-text cs t) refl

-- `input_read` on an input that is not empty.
read_some :
    (line rest input : List ℕ) (c : ℕ)
    → getline (line ++ c ∷ rest) ≡ line ++ c ∷ []
    → after_line (line ++ c ∷ rest) ≡ input
    → IsText line
    → input_read (line ++ c ∷ rest) ≡ some (line, input)
unfolding input_read c_string
read_some [] rest input c got left t = rw (got, left) refl
read_some (d ∷ ds) rest input c got left t =
    rw (got, left, without_last-append (d ∷ ds) c, c_string-text (d ∷ ds) t) refl

-- A line of text, without newlines and NULs, that ends with a newline is read as it was written,
-- and what follows is left. At the end of the input, a last line that does not end with a newline
-- loses its last byte.
pub input_read-text :
    (line : List ℕ)
    → IsText line
    → ((rest : List ℕ) → input_read (line ++ 10 ∷ rest) ≡ some (line, rest))
      × ((c : ℕ) → c ≢ 10 → input_read (line ++ c ∷ []) ≡ some (line, []))
input_read-text line t = (
  λ rest. read_some line rest rest 10 (getline-text line rest t) (after_line-text line rest t) t,
  λ c h. read_some line [] [] c (getline-last line c t h) (after_line-last line c t h) t,
)

pub after_line-shortens : (c : ℕ) (cs : List ℕ) → length (after_line (c ∷ cs)) ≤ length cs
unfolding after_line
after_line-shortens c [] = elim (Bool-cases (c == 10)) [
  | inl e ↦ rw e (omega arith)
  | inr e ↦ rw e (omega arith)
]
after_line-shortens c (d ∷ ds) = elim (Bool-cases (c == 10)) [
  | inl e ↦ rw e (omega arith)
  | inr e ↦ let shorter = after_line-shortens d ds in rw e (omega arith)
]
