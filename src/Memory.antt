-- ===== src/Memory.antt =====
-- The memory behind the pager of src/pager.c: pages of bytes, commands that read and write them,
-- and the two ways in which a C run may stop early (exit, or undefined behaviour).
pub mod Bytes
pub mod Laws
use gnaro.Base.{
  ℕ, zero, suc, ◌+◌, ◌-◌, ◌*◌, ◌/◌, ◌%◌, ◌≤◌, ◌<◌, ◌≡◌, Option, none, some, List, leb, ltb, ◌==◌,
  if◌then◌else◌, length,
}
use gnaro.Memory.Bytes.{Page, word, set_word, blit, write_bytes, read_bytes}

-- The file that a descriptor denotes.
pub record File : Type 0 where
  pub size : ℕ
  pub bytes : ℕ → ℕ

-- `struct Pager`. A pointer to a page is the page's number: a page, once allocated, stays where it
-- is until the database is closed.
pub record Pager : Type 0 where
  pub file_descriptor : File
  pub file_length : ℕ
  pub num_pages : ℕ
  pub pages : ℕ → Option Page

-- A run ends with a value, calls `exit(EXIT_FAILURE)`, has undefined behaviour, or needs more fuel.
pub data Run {ℓ} (A : Type ℓ) : Type ℓ where
  ok : A → Pager → Run A
  exited : Run A
  fault : Run A
  out_of_fuel : Run A

abbrev pub Cmd {ℓ} : Type ℓ → Type ℓ
Cmd A = Pager → Run A

abbrev pub pure {ℓ} : {A : Type ℓ} → A → Cmd A
pure = ok

abbrev pub exit {ℓ} : {A : Type ℓ} → Cmd A
exit s = exited

abbrev pub starved {ℓ} : {A : Type ℓ} → Cmd A
starved s = out_of_fuel

abbrev pub and_then {ℓ κ} : {A : Type ℓ} {B : Type κ} → Run A → (A → Cmd B) → Run B
and_then (ok a s) k = k a s
and_then exited k = exited
and_then fault k = fault
and_then out_of_fuel k = out_of_fuel

infixl 5 ◌>>=◌ ◌>>◌
abbrev pub ◌>>=◌ {ℓ κ} : {A : Type ℓ} {B : Type κ} → Cmd A → (A → Cmd B) → Cmd B
m >>= k = λ s. and_then (m s) k

abbrev pub ◌>>◌ {ℓ κ} : {A : Type ℓ} {B : Type κ} → Cmd A → Cmd B → Cmd B
m >> n = m >>= λ _. n

abbrev pub page_size : ℕ
page_size = 4096

-- The pages with page `n` replaced.
unfoldable pub update : (ℕ → Option Page) → ℕ → Option Page → ℕ → Option Page
update f n p m = if m == n then p else f m

abbrev pub put : ℕ → Page → Pager → Pager
put n p s = record s { pages = update s.pages n (some p) }

-- An access to `size` bytes at `offset` of page `n`: undefined if the page is not allocated, or if
-- the access leaves it.
unfoldable pub access {ℓ} : {A : Type ℓ} → (n offset size : ℕ) → (Page → Cmd A) → Cmd A
access n offset size k s =
    if leb (offset + size) page_size
    then elim (s.pages n) [ none ↦ fault | some p ↦ k p s ]
    else fault

unfoldable pub load8 : (n offset : ℕ) → Cmd ℕ
load8 n offset = access n offset 1 (λ p. pure (p offset))

unfoldable pub store8 : (n offset value : ℕ) → Cmd (Unit {0})
store8 n offset value = access n offset 1 (λ p s. ok tt (put n (blit p offset (λ _. value) 0 1) s))

-- `*(uint32_t *)(page + offset)`, least significant byte first
unfoldable pub load32 : (n offset : ℕ) → Cmd ℕ
load32 n offset = access n offset 4 (λ p. pure (word p offset))

unfoldable pub store32 : (n offset value : ℕ) → Cmd (Unit {0})
store32 n offset value = access n offset 4 (λ p s. ok tt (put n (set_word p offset value) s))

-- `memcpy` between pages
unfoldable pub memcpy : (n offset m source size : ℕ) → Cmd (Unit {0})
memcpy n offset m source size =
    access m source size
      (λ q. access n offset size (λ p s. ok tt (put n (blit p offset q source size) s)))

unfoldable pub store_bytes : (n offset : ℕ) → List ℕ → Cmd (Unit {0})
store_bytes n offset bs =
    access n offset (length bs) (λ p s. ok tt (put n (write_bytes p offset bs) s))

unfoldable pub load_bytes : (n offset size : ℕ) → Cmd (List ℕ)
load_bytes n offset size = access n offset size (λ p. pure (read_bytes p offset size))
