-- ===== src/Input.antt =====
-- src/input.c: reading a line. The standard input is the list of the bytes that are left of it, and
-- `getline` of the C library is given as its manual page states it.
pub mod Lines
use gnaro.Base.{ℕ, ◌-◌, ◌++◌, length, Option, none, some, List, [], ◌∷◌, ◌==◌, if◌then◌else◌}
use gnaro.Row.{c_string}

-- `InputBuffer`: the string in the buffer, if there is one yet, and its length. The buffer's own size
-- is the business of `getline`.
pub record InputBuffer : Type 0 where
  pub buffer : Option (List ℕ)
  pub input_length : ℕ

unfoldable pub input_new_buffer : InputBuffer
input_new_buffer = record { buffer = none; input_length = 0 }

-- The text that is printed.
unfoldable pub input_prompt : (text : List ℕ) → List ℕ
input_prompt text = text ++ b' ' ∷ b'>' ∷ b' ' ∷ []

-- `getline`: the bytes up to and with the next newline, and those behind it; all bytes if there is
-- no newline.
unfoldable pub getline : List ℕ → List ℕ
getline [] = []
getline (c ∷ cs) = if c == 10 then c ∷ [] else c ∷ getline cs

unfoldable pub after_line : List ℕ → List ℕ
after_line [] = []
after_line (c ∷ cs) = if c == 10 then cs else after_line cs

-- The bytes without the last one, over which `input_read` writes a NUL.
unfoldable pub without_last : List ℕ → List ℕ
without_last [] = []
without_last (c ∷ []) = []
without_last (c ∷ d ∷ cs) = c ∷ without_last (d ∷ cs)

-- The string in the buffer and the input that is left; `none` is the answer -1.
unfoldable pub input_read : List ℕ → Option (List ℕ × List ℕ)
unfolding getline after_line without_last
input_read [] = none
input_read (c ∷ cs) = some (c_string (without_last (getline (c ∷ cs))), after_line (c ∷ cs))

-- `input_read` on a buffer: the string goes into it, with its length.
unfoldable pub read_into : List ℕ → InputBuffer → Option (InputBuffer × List ℕ)
unfolding input_read
read_into input input_buffer = elim (input_read input) [
  | none ↦ none
  | some (line, rest) ↦
      some (record { buffer = some line; input_length = length (getline input) - 1 }, rest)
]
