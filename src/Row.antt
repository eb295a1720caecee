-- ===== src/Row.antt =====
-- src/row.c and include/row.h: a row and its compact representation in a page.
pub mod RoundTrip
pub mod Print
use gnaro.Base.{
  ℕ, zero, suc, ◌+◌, ◌^◌, ◌<◌, ◌≡◌, List, [], ◌∷◌, ◌==◌, if◌then◌else◌, length, replicate,
}
use gnaro.Memory.{Cmd, pure, ◌>>=◌, ◌>>◌, load32, store32, load_bytes, store_bytes}

abbrev pub row_column_username_size : ℕ
row_column_username_size = 32

abbrev pub row_column_email_size : ℕ
row_column_email_size = 255

-- `username` and `email` are char arrays of 33 and 256 bytes.
pub record Row : Type 0 where
  pub id : ℕ
  pub username : List ℕ
  pub email : List ℕ

abbrev pub row_id_size : ℕ
row_id_size = 4

abbrev pub row_username_size : ℕ
row_username_size = row_column_username_size + 1

abbrev pub row_email_size : ℕ
row_email_size = row_column_email_size + 1

abbrev pub row_id_offset : ℕ
row_id_offset = 0

abbrev pub row_username_offset : ℕ
row_username_offset = row_id_offset + row_id_size

abbrev pub row_email_offset : ℕ
row_email_offset = row_username_offset + row_username_size

abbrev pub row_size : ℕ
row_size = row_id_size + row_username_size + row_email_size

-- A value of `Row` in C: its fields fill their types.
pub record IsRow (r : Row) : Type 0 where
  pub id : r.id < 2 ^ 32
  pub username : length r.username ≡ row_username_size
  pub email : length r.email ≡ row_email_size

-- The bytes that `strncpy(dst, s, n)` writes: `s` up to its NUL, then zeros.
unfoldable pub strncpy : ℕ → List ℕ → List ℕ
strncpy zero s = []
strncpy (suc n) [] = replicate (suc n) 0
strncpy (suc n) (c ∷ s) = if c == 0 then replicate (suc n) 0 else c ∷ strncpy n s

-- The C string that a char array holds.
unfoldable pub c_string : List ℕ → List ℕ
c_string [] = []
c_string (c ∷ s) = if c == 0 then [] else c ∷ c_string s

-- `destination` is an offset in page `node`.
unfoldable pub row_serialize : Row → (node destination : ℕ) → Cmd (Unit {0})
row_serialize source node destination = do
  store32 node (destination + row_id_offset) source.id
  store_bytes node (destination + row_username_offset) (strncpy row_username_size source.username)
  store_bytes node (destination + row_email_offset) (strncpy row_email_size source.email)

unfoldable pub row_deserialize : (node source : ℕ) → Cmd Row
row_deserialize node source = do
  id ← load32 node (source + row_id_offset)
  username ← load_bytes node (source + row_username_offset) row_username_size
  email ← load_bytes node (source + row_email_offset) row_email_size
  pure (record { id = id; username = username; email = email })
