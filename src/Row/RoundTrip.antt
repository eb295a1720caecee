-- ===== src/Row/RoundTrip.antt =====
-- A row that is written and read back is the same row, as C strings go.
use gnaro.Base.{
  ℕ, zero, suc, ◌+◌, ◌^◌, ◌≤◌, ◌<◌, ◌≡◌, refl, ap, ◌∙◌, ◌⊎◌, inl, inr, List, [], ◌∷◌, some, arith,
  length, length-replicate, Bool-cases, ◌==◌,
}
use gnaro.Memory.{Pager, ok, ◌>>◌, page_size, put}
use gnaro.Memory.Bytes.{
  Page, word, set_word, write_bytes, read_bytes, word-set_word, word-ext, read-write_bytes,
  read_bytes-ext, write_bytes_out, set_word_out,
}
use gnaro.Memory.Laws.{put_self, load32-put, load_bytes-put, store32-put, store_bytes-put}
use gnaro.Row.{
  Row, IsRow, row_size, row_username_size, row_email_size, row_username_offset, row_email_offset,
  strncpy, c_string, row_serialize, row_deserialize,
}

pub length-strncpy : (n : ℕ) (s : List ℕ) → length (strncpy n s) ≡ n
unfolding strncpy
length-strncpy zero s = refl
length-strncpy (suc n) [] = ap suc (length-replicate {A = ℕ} n 0)
length-strncpy (suc n) (c ∷ s) = ground (arith, length-strncpy n s, length-replicate {A = ℕ} n 0)

c_string-strncpy : (n : ℕ) (s : List ℕ) → length s ≡ n → c_string (strncpy n s) ≡ c_string s
unfolding strncpy c_string
c_string-strncpy zero [] h = refl
c_string-strncpy zero (c ∷ s) h = absurd (omega arith)
c_string-strncpy (suc n) [] h = absurd (omega arith)
c_string-strncpy (suc n) (c ∷ s) h = elim (Bool-cases (c == 0)) [
  | inl e ↦ rw e refl
  | inr e ↦ rw (e, e) (ap (λ t. c ∷ t) (c_string-strncpy n s (omega arith)))
]

-- The bytes of a row at offset `o`.
pub with_row : Page → ℕ → Row → Page
with_row p o r =
    write_bytes
      (write_bytes (set_word p (o + 0) r.id) (o + row_username_offset)
        (strncpy row_username_size r.username))
      (o + row_email_offset) (strncpy row_email_size r.email)

pub row_serialize-put :
    (r : Row) (n o : ℕ) (p : Page) (s : Pager)
    → o + row_size ≤ page_size
    → row_serialize r n o (put n p s) ≡ ok tt (put n (with_row p o r) s)
unfolding row_serialize with_row
row_serialize-put r n o p s h = rw (
  store32-put n p s (o + 0) r.id (omega arith),
  store_bytes-put n _ s (o + row_username_offset) (strncpy row_username_size r.username)
      (omega (arith, length-strncpy row_username_size r.username)),
  store_bytes-put n _ s (o + row_email_offset) (strncpy row_email_size r.email)
      (omega (arith, length-strncpy row_email_size r.email)),
)

pub with_row_out :
    (p : Page) (o : ℕ) (r : Row) (a : ℕ) → ((a < o) ⊎ (o + row_size ≤ a)) → with_row p o r a ≡ p a
unfolding with_row
with_row_out p o r a h =
    let n1 = length-strncpy row_username_size r.username in
    let n2 = length-strncpy row_email_size r.email in
    write_bytes_out _ (o + row_email_offset) (strncpy row_email_size r.email) a (omega arith)
    ∙ write_bytes_out _ (o + row_username_offset) (strncpy row_username_size r.username) a
        (omega arith)
    ∙ set_word_out p (o + 0) r.id a (omega arith)

-- The row that the bytes at offset `o` stand for.
unfoldable pub row_at : Page → ℕ → Row
row_at p o = record {
  id = word p (o + 0);
  username = read_bytes p (o + row_username_offset) row_username_size;
  email = read_bytes p (o + row_email_offset) row_email_size;
}

pub row_deserialize-put :
    (n o : ℕ) (p : Page) (s : Pager)
    → o + row_size ≤ page_size
    → row_deserialize n o (put n p s) ≡ ok (row_at p o) (put n p s)
unfolding row_deserialize row_at
row_deserialize-put n o p s h = rw (
  load32-put n p s (o + 0) (omega arith),
  load_bytes-put n p s (o + row_username_offset) row_username_size (omega arith),
  load_bytes-put n p s (o + row_email_offset) row_email_size (omega arith),
)

-- A row as its fields are stored: behind a string's NUL stand zeros.
unfoldable pub stored : Row → Row
stored r = record {
  id = r.id;
  username = strncpy row_username_size r.username;
  email = strncpy row_email_size r.email;
}

-- Bytes written with their own length are read back.
read_back :
    (p : Page) (o n : ℕ) (bs : List ℕ) → length bs ≡ n → read_bytes (write_bytes p o bs) o n ≡ bs
read_back p o n bs h = rw (← h) (read-write_bytes p o bs)

pub row_at-with_row :
    (p : Page) (o : ℕ) (r : Row) → r.id < 2 ^ 32 → row_at (with_row p o r) o ≡ stored r
unfolding row_at with_row stored
row_at-with_row p o r h = λ i. record { id = id_eq i; username = username_eq i; email = email_eq i }
  where
    name : List ℕ
    name = strncpy row_username_size r.username

    mail : List ℕ
    mail = strncpy row_email_size r.email

    p1 : Page
    p1 = set_word p (o + 0) r.id

    p2 : Page
    p2 = write_bytes p1 (o + row_username_offset) name

    p3 : Page
    p3 = write_bytes p2 (o + row_email_offset) mail

    name_length : length name ≡ row_username_size
    name_length = length-strncpy row_username_size r.username

    id_eq : word p3 (o + 0) ≡ r.id
    id_eq =
        word-ext p3 p1 (o + 0) (o + 0) (λ k lt.
          write_bytes_out p2 (o + row_email_offset) mail (o + 0 + k) (inl (omega arith))
          ∙ write_bytes_out p1 (o + row_username_offset) name (o + 0 + k) (inl (omega arith)))
        ∙ word-set_word p (o + 0) r.id h

    username_eq : read_bytes p3 (o + row_username_offset) row_username_size ≡ name
    username_eq =
        read_bytes-ext p3 p2 (o + row_username_offset) (o + row_username_offset) row_username_size
          (λ k lt.
            write_bytes_out p2 (o + row_email_offset) mail (o + row_username_offset + k)
              (inl (omega arith)))
        ∙ read_back p1 (o + row_username_offset) row_username_size name name_length

    email_eq : read_bytes p3 (o + row_email_offset) row_email_size ≡ mail
    email_eq =
        read_back p2 (o + row_email_offset) row_email_size mail
          (length-strncpy row_email_size r.email)

-- The strings of a stored row are the row's strings.
stored-strings :
    (r : Row)
    → IsRow r
    → ((stored r).id ≡ r.id)
      × (c_string (stored r).username ≡ c_string r.username)
      × (c_string (stored r).email ≡ c_string r.email)
unfolding stored
stored-strings r v = (
  refl,
  c_string-strncpy row_username_size r.username v.username,
  c_string-strncpy row_email_size r.email v.email,
)

-- A row that is serialized into an allocated page, at an offset that leaves room for it, and then
-- deserialized from there, comes back with its id and with the C strings of its two columns; the
-- bytes of the page outside the row's area, and the other pages, are as before.
pub row_deserialize-row_serialize :
    (r : Row) (n o : ℕ) (p : Page) (s : Pager)
    → IsRow r
    → s.pages n ≡ some p
    → o + row_size ≤ page_size
    → (r' : Row) × (q : Page) × ((row_serialize r n o >> row_deserialize n o) s ≡ ok r' (put n q s))
      × (r'.id ≡ r.id)
      × (c_string r'.username ≡ c_string r.username)
      × (c_string r'.email ≡ c_string r.email)
      × ((a : ℕ) → ((a < o) ⊎ (o + row_size ≤ a)) → q a ≡ p a)
row_deserialize-row_serialize r n o p s v here h = (
  stored r,
  with_row p o r,
  runs,
  (stored-strings r v).0,
  (stored-strings r v).1,
  (stored-strings r v).2,
  with_row_out p o r,
)
  where
    runs : (row_serialize r n o >> row_deserialize n o) s ≡ ok (stored r) (put n (with_row p o r) s)
    runs =
        let e = put_self n p s here in
        let t : (row_serialize r n o >> row_deserialize n o) (put n p s)
            ≡ ok (stored r) (put n (with_row p o r) s) =
          rw
            (
              row_serialize-put r n o p s h,
              row_deserialize-put n o (with_row p o r) s h,
              row_at-with_row p o r v.id,
            )
            refl in
        rw e at t
