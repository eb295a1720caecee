-- ===== src/Pager/Steps.antt =====
-- What a call of `pager_get_page` or of `pager_flush` of src/pager.c that returned has done.
use gnaro.Base.{
  ℕ, ◌+◌, ◌*◌, ◌/◌, ◌≡◌, refl, ◌<◌, ◌∙◌, ◌≢◌, false, Option, none, some, ltb, leb, ◌==◌, inl, inr,
  Bool-cases, true, ap, sym, ◌⊎◌, ◌≤◌, arith, le→leb, lt→ltb, ◌-◌, ==→eq,
}
use gnaro.Memory.{page_size, Pager, ok}
use gnaro.Memory.Bytes.{Page}
use gnaro.Memory.Laws.{update_self, update_ne}
use gnaro.Pager.{
  Env, pager_max_pages, pager_get_page, pager_flush, load_page, read_page, write_page, loaded,
  file_offset,
}
use gnaro.Pager.Cache.{first_content, pages_in_file}

-- Each cached page has a number below the count.
abbrev pub AllCounted : Pager → Type 0
AllCounted s = (k : ℕ) (p : Page) → s.pages k ≡ some p → k < s.num_pages

-- How a page came to be delivered: it was cached, or it has been loaded.
pub data Delivery (env : Env) (n m : ℕ) (s t : Pager) : Type 0 where
  hit : (p : Page) → s.pages n ≡ some p → m ≡ n → t ≡ s → Delivery env n m s t
  miss : s.pages n ≡ none → m ≡ n → t ≡ loaded n (first_content env s n) s → Delivery env n m s t

module _ (env : Env) (n m : ℕ) (s t : Pager) where
  load-Delivery : s.pages n ≡ none → load_page env n s ≡ ok m t → Delivery env n m s t
  unfolding load_page
  load-Delivery absent runs = elim (Bool-cases (leb n (pages_in_file s))) [
    | inl inside ↦ elim (Bool-cases (env.read_fails (file_offset env (n * page_size)))) [
      | inl fails ↦ let stuck = rw (inside, fails) at runs in absurd (cc)
      | inr reads ↦ let done = rw (inside, reads) at runs in miss absent (cc) (rw inside (cc))
    ]
    | inr beyond ↦ let done = rw beyond at runs in miss absent (cc) (rw beyond (cc))
  ]

  page-Delivery :
      (page : Option Page)
      → s.pages n ≡ page
      → pager_get_page env n s ≡ ok m t
      → Delivery env n m s t
  unfolding pager_get_page
  page-Delivery page is runs = elim (Bool-cases (ltb pager_max_pages n)) [
    | inl beyond ↦ let stuck = rw beyond at runs in absurd (cc)
    | inr below ↦ elim (Bool-cases (n == pager_max_pages)) [
      | inl limit ↦ let stuck = rw (below, limit) at runs in absurd (cc)
      | inr inside ↦ by_page page is (rw (below, inside) at runs)
    ]
  ]
    where
      by_page :
          (page : Option Page)
          → s.pages n ≡ page
          → elim (s.pages n) [ none ↦ load_page env n s | some p ↦ ok n s ] ≡ ok m t
          → Delivery env n m s t
      by_page none is runs = load-Delivery is (rw is at runs)
      by_page (some p) is runs = let done = rw is at runs in hit p is (cc) (cc)

  pub get_page-Delivery : pager_get_page env n s ≡ ok m t → Delivery env n m s t
  get_page-Delivery = page-Delivery (s.pages n) refl

module _ (env : Env) (n m : ℕ) (s t : Pager) where
  pub kept_by : (k : ℕ) (p : Page) → Delivery env n m s t → s.pages k ≡ some p → t.pages k ≡ some p
  kept_by k p (hit q is same left) there = rw left there
  kept_by k p (miss absent same left) there =
      let apart : k ≢ n = λ e. cc in
      rw left (update_ne s.pages n k (some (first_content env s n)) apart ∙ there)

  pub delivered_by : Delivery env n m s t → (m ≡ n) × ((p : Page) × (t.pages n ≡ some p))
  delivered_by (hit p is same left) = (same, (p, rw left is))
  delivered_by (miss absent same left) = (
    same,
    (first_content env s n, rw left (update_self s.pages n (some (first_content env s n)))),
  )

  -- A page that is read from its place in the file has the bytes there.
  first_content-file :
      (a : ℕ)
      → env.seek_fails (n * page_size) ≡ false
      → a < page_size
      → n * page_size + a < s.file_length
      → n * page_size + a < s.file_descriptor.size
      → first_content env s n a ≡ s.file_descriptor.bytes (n * page_size + a)
  unfolding read_page file_offset
  first_content-file a seeks inside length within =
      let first : n ≤ s.file_length / page_size = omega arith in
      rw (
        le→leb n (pages_in_file s) (omega arith),
        seeks,
        lt→ltb a page_size inside,
        lt→ltb (n * page_size + a) s.file_descriptor.size within,
      )

  pub from_disk_by :
      (a : ℕ) (p : Page)
      → Delivery env n m s t
      → s.pages n ≡ none
      → t.pages n ≡ some p
      → env.seek_fails (n * page_size) ≡ false
      → a < page_size
      → n * page_size + a < s.file_length
      → n * page_size + a < s.file_descriptor.size
      → p a ≡ s.file_descriptor.bytes (n * page_size + a)
  from_disk_by a p (hit q is same left) absent there seeks inside length within = absurd (cc)
  from_disk_by a p (miss is same left) absent there seeks inside length within =
      let new : t.pages n ≡ some (first_content env s n) =
        rw left (update_self s.pages n (some (first_content env s n))) in
      let one : p ≡ first_content env s n = cc in
      ap (λ (q : Page). q a) one ∙ first_content-file a seeks inside length within

  pub counted_by : Delivery env n m s t → AllCounted s → AllCounted t
  counted_by (hit q is same left) all = rw left all
  counted_by (miss absent same left) all = rw left λ k p there. elim (Bool-cases (k == n)) [
    | inl at ↦ let e : k ≡ n = ==→eq k n at in ground arith
    | inr other ↦
        let ne : k ≢ n = λ e. ground arith in
        let before =
          all k p (sym (update_ne s.pages n k (some (first_content env s n)) ne) ∙ there) in
        ground arith
  ]

-- What a flush that returns has done.
flush-written :
    (env : Env) (n : ℕ) (s t : Pager)
    → pager_flush env n s ≡ ok tt t
    → (p : Page) × (s.pages n ≡ some p)
      × (t ≡ record s { file_descriptor = write_page s.file_descriptor n p })
unfolding pager_flush
flush-written env n s t runs = elim (Bool-cases (leb pager_max_pages n)) [
  | inl beyond ↦ let stuck = rw beyond at runs in absurd (cc)
  | inr inside ↦ by_page inside (s.pages n) refl
]
  where
    by_page :
        leb pager_max_pages n ≡ false
        → (page : Option Page) → s.pages n ≡ page
        → (p : Page) × (s.pages n ≡ some p)
          × (t ≡ record s { file_descriptor = write_page s.file_descriptor n p })
    by_page inside none is = let stuck = rw (inside, is) at runs in absurd (cc)
    by_page inside (some p) is = elim (Bool-cases (env.seek_fails (n * page_size))) [
      | inl fails ↦ let stuck = rw (inside, is, fails) at runs in absurd (cc)
      | inr seeks ↦ elim (Bool-cases (env.write_fails (n * page_size))) [
        | inl fails ↦ let stuck = rw (inside, is, seeks, fails) at runs in absurd (cc)
        | inr writes ↦ let done = rw (inside, is, seeks, writes) at runs in (p, is, cc)
      ]
    ]

pub flush-to_disk :
    (env : Env) (n a : ℕ) (s t : Pager) (p : Page)
    → pager_flush env n s ≡ ok tt t
    → s.pages n ≡ some p
    → a < page_size
    → (n * page_size + a < t.file_descriptor.size)
      × (t.file_descriptor.bytes (n * page_size + a) ≡ p a)
unfolding write_page
flush-to_disk env n a s t p runs there inside =
    let (q, is, left) = flush-written env n s t runs in
    let one : q ≡ p = cc in
    let low : leb (n * page_size) (n * page_size + a) ≡ true = ground arith in
    let high : ltb (n * page_size + a) ((n + 1) * page_size) ≡ true = ground arith in
    let place : n * page_size + a - n * page_size ≡ a = omega arith in
    rw left (ground arith, rw (low, high, place) (ap (λ (r : Page). r a) one))

pub flush-elsewhere :
    (env : Env) (n a : ℕ) (s t : Pager)
    → pager_flush env n s ≡ ok tt t
    → a < s.file_descriptor.size
    → ((a < n * page_size) ⊎ ((n + 1) * page_size ≤ a))
    → t.file_descriptor.bytes a ≡ s.file_descriptor.bytes a
unfolding write_page
flush-elsewhere env n a s t runs within apart =
    let (q, is, left) = flush-written env n s t runs in rw left (ground arith)

pub flush-pages :
    (env : Env) (n : ℕ) (s t : Pager) → pager_flush env n s ≡ ok tt t → t.pages ≡ s.pages
flush-pages env n s t runs = let (p, is, left) = flush-written env n s t runs in rw left refl

-- No cached page has the number of the first page that is not counted.
pub unused_free :
    (n : ℕ) (s : Pager) (page : Option Page)
    → s.pages n ≡ page
    → n ≡ s.num_pages
    → AllCounted s
    → s.pages n ≡ none
unused_free n s none is e all = is
unused_free n s (some p) is e all = let below = all n p is in absurd (omega arith)
