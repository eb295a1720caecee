-- ===== src/Pager/Disk.antt =====
-- What writing a page does to the bytes and the size of the file.
use gnaro.Base.{ℕ, ◌+◌, ◌-◌, ◌*◌, ◌≤◌, ◌<◌, ◌≡◌, refl, ◌≢◌, ◌⊎◌, inl, inr, arith, Bool-cases, ltb}
use gnaro.Memory.{File, page_size}
use gnaro.Memory.Bytes.{Page}
use gnaro.Pager.{write_page}

-- The byte `a` of page `k` in a file.
abbrev pub byte_of : File → (k a : ℕ) → ℕ
byte_of f k a = f.bytes (k * page_size + a)

pub write_page_self :
    (f : File) (n : ℕ) (p : Page) (a : ℕ) → a < page_size → byte_of (write_page f n p) n a ≡ p a
unfolding write_page
write_page_self f n p a h =
    let e : n * page_size + a - n * page_size ≡ a = omega arith in ground (arith, e)

pub write_page_other :
    (f : File) (n : ℕ) (p : Page) (k a : ℕ)
    → k ≢ n
    → a < page_size
    → k * page_size + a < f.size
    → byte_of (write_page f n p) k a ≡ byte_of f k a
unfolding write_page
write_page_other f n p k a h small inside = elim (Bool-cases (ltb k n)) [
  | inl before ↦ let lt : k + 1 ≤ n = ground arith in ground arith
  | inr after ↦ let lt : n + 1 ≤ k = ground arith in ground arith
]

pub size-write_page :
    (f : File) (n : ℕ) (p : Page)
    → ((n + 1) * page_size ≤ (write_page f n p).size)
      × (f.size ≤ (write_page f n p).size)
      × (((write_page f n p).size ≡ f.size) ⊎ ((write_page f n p).size ≡ (n + 1) * page_size))
unfolding write_page
size-write_page f n p = elim (Bool-cases (ltb f.size ((n + 1) * page_size))) [
  | inl e ↦ (ground arith, ground arith, inr (rw e refl))
  | inr e ↦ (ground arith, ground arith, inl (rw e refl))
]
