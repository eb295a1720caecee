-- ===== src/Memory/Bytes.antt =====
-- A page as a function from offsets to bytes: words, copies and byte strings.
use mathlib.Core.Path.{ap₂}
use native.Mathlib.Nat.{add-zero, zero-add, add_assoc}
use gnaro.Base.{
  ℕ, zero, suc, ◌+◌, ◌-◌, ◌*◌, ◌/◌, ◌%◌, ◌^◌, ◌≤◌, ◌<◌, ◌≡◌, refl, ap, ◌⊎◌, List, [], ◌∷◌, arith,
  ◌&&◌, leb, ltb, if◌then◌else◌, length, get_or, ◌∙◌, le→leb, lt→ltb, one_add,
}

abbrev pub Page : Type 0
Page = ℕ → ℕ

-- The 32-bit word at offset `o`, least significant byte first.
unfoldable pub word : Page → ℕ → ℕ
word p o = p o + 256 * p (o + 1) + 65536 * p (o + 2) + 16777216 * p (o + 3)

-- `size` bytes of `q` from `source` on, copied to offset `o` of `p`.
unfoldable pub blit : Page → ℕ → Page → ℕ → ℕ → Page
blit p o q source size a = if leb o a && ltb a (o + size) then q (a - o + source) else p a

unfoldable pub word_byte : ℕ → ℕ → ℕ
word_byte v zero = v % 256
word_byte v (suc k) = word_byte (v / 256) k

unfoldable pub set_word : Page → ℕ → ℕ → Page
unfolding blit
set_word p o v = blit p o (word_byte v) 0 4

unfoldable pub write_bytes : Page → ℕ → List ℕ → Page
unfolding blit
write_bytes p o bs = blit p o (λ k. get_or bs k 0) 0 (length bs)

unfoldable pub read_bytes : Page → ℕ → ℕ → List ℕ
read_bytes p o zero = []
read_bytes p o (suc n) = p o ∷ read_bytes p (o + 1) n

-- A word reads its four bytes and no other.
pub word-ext :
    (p q : Page) (o u : ℕ) → ((k : ℕ) → k < 4 → p (o + k) ≡ q (u + k)) → word p o ≡ word q u
unfolding word
word-ext p q o u h =
    let h0 : p o ≡ q u = rw (add-zero, add-zero) at (h 0 (omega arith)) in
    let h1 = h 1 (omega arith) in
    let h2 = h 2 (omega arith) in let h3 = h 3 (omega arith) in omega arith

pub blit_in : (p q : Page) (o s n k : ℕ) → k < n → blit p o q s n (o + k) ≡ q (s + k)
unfolding blit
blit_in p q o s n k h =
    rw (le→leb o (o + k) (omega arith), lt→ltb (o + k) (o + n) (omega arith)) (ap q (omega arith))

pub blit_out : (p q : Page) (o s n a : ℕ) → ((a < o) ⊎ (o + n ≤ a)) → blit p o q s n a ≡ p a
unfolding blit
blit_out p q o s n a h = ground arith

pub word-set_word : (p : Page) (o v : ℕ) → v < 2 ^ 32 → word (set_word p o v) o ≡ v
unfolding set_word word_byte
word-set_word p o v h =
    word-ext (set_word p o v) (word_byte v) o 0 (λ k lt. blit_in p (word_byte v) o 0 4 k lt) ∙ bytes
  where
    bytes : word (word_byte v) 0 ≡ v
    bytes = unfold word in omega arith

-- A number beyond 32 bits wraps.
pub word-set_word_wrap : (p : Page) (o v : ℕ) → word (set_word p o v) o ≡ v % 2 ^ 32
unfolding set_word word_byte
word-set_word_wrap p o v =
    word-ext (set_word p o v) (word_byte v) o 0 (λ k lt. blit_in p (word_byte v) o 0 4 k lt) ∙ bytes
  where
    bytes : word (word_byte v) 0 ≡ v % 2 ^ 32
    bytes = unfold word in omega arith

pub word-blit_in :
    (p q : Page) (o s n u : ℕ) → u + 4 ≤ n → word (blit p o q s n) (o + u) ≡ word q (s + u)
word-blit_in p q o s n u h =
    word-ext _ q (o + u) (s + u)
      λ k lt. rw (add_assoc, add_assoc) (blit_in p q o s n (u + k) (omega arith))

pub word-blit_out :
    (p q : Page) (o s n u : ℕ) → ((u + 4 ≤ o) ⊎ (o + n ≤ u)) → word (blit p o q s n) u ≡ word p u
word-blit_out p q o s n u h = word-ext _ p u u λ k lt. blit_out p q o s n (u + k) (omega arith)

pub word-set_word_out :
    (p : Page) (o v u : ℕ) → ((u + 4 ≤ o) ⊎ (o + 4 ≤ u)) → word (set_word p o v) u ≡ word p u
unfolding set_word
word-set_word_out p o v u h = word-blit_out p (word_byte v) o 0 4 u h

pub set_word_out : (p : Page) (o v a : ℕ) → ((a < o) ⊎ (o + 4 ≤ a)) → set_word p o v a ≡ p a
unfolding set_word
set_word_out p o v a h = blit_out p (word_byte v) o 0 4 a h

pub write_bytes_out :
    (p : Page) (o : ℕ) (bs : List ℕ) (a : ℕ)
    → ((a < o) ⊎ (o + length bs ≤ a))
    → write_bytes p o bs a ≡ p a
unfolding write_bytes
write_bytes_out p o bs a h = blit_out p (λ k. get_or bs k 0) o 0 (length bs) a h

pub write_bytes_in :
    (p : Page) (o : ℕ) (bs : List ℕ) (k : ℕ)
    → k < length bs
    → write_bytes p o bs (o + k) ≡ get_or bs k 0
unfolding write_bytes
write_bytes_in p o bs k h =
    blit_in p (λ j. get_or bs j 0) o 0 (length bs) k h ∙ ap (λ j. get_or bs j 0) (zero-add k)

pub length-read_bytes : (p : Page) (o n : ℕ) → length (read_bytes p o n) ≡ n
unfolding read_bytes
length-read_bytes p o zero = refl
length-read_bytes p o (suc n) = ap suc (length-read_bytes p (o + 1) n)

-- Byte strings agree if their bytes do.
pub read_bytes-ext :
    (p q : Page) (o u n : ℕ)
    → ((k : ℕ) → k < n → p (o + k) ≡ q (u + k))
    → read_bytes p o n ≡ read_bytes q u n
unfolding read_bytes
read_bytes-ext p q o u zero h = refl
read_bytes-ext p q o u (suc n) h = ap₂ ◌∷◌ (rw (add-zero, add-zero) at (h 0 (omega arith))) (
    read_bytes-ext p q (o + 1) (u + 1) n
      λ k lt. rw (add_assoc, add_assoc) (h (1 + k) (omega arith)))

-- What a byte string is, read where its bytes lie.
pub read_bytes_of :
    (p : Page) (o : ℕ) (bs : List ℕ)
    → ((k : ℕ) → k < length bs → p (o + k) ≡ get_or bs k 0)
    → read_bytes p o (length bs) ≡ bs
unfolding read_bytes
read_bytes_of p o [] h = refl
read_bytes_of p o (b ∷ bs) h =
    ap₂ ◌∷◌ (rw add-zero at (h 0 (omega arith)))
      (read_bytes_of p (o + 1) bs λ k lt. (rw (add_assoc, one_add) (h (suc k) (omega arith))))

pub read-write_bytes :
    (p : Page) (o : ℕ) (bs : List ℕ) → read_bytes (write_bytes p o bs) o (length bs) ≡ bs
read-write_bytes p o bs = read_bytes_of _ o bs λ k lt. write_bytes_in p o bs k lt
