-- ===== src/Pager/Cache.antt =====
-- The page cache: hits, misses, and the number of pages.
use gnaro.Base.{
  ◌⊎◌, ℕ, ◌+◌, ◌*◌, ◌/◌, ◌%◌, ◌≤◌, ◌<◌, ◌≡◌, ◌≢◌, refl, some, none, arith, leb, ◌==◌, le→not_ltb,
  ◌∙◌, ltb, true, ==→eq, leb→le, not_leb→lt, ne→not_==, if◌then◌else◌, Bool-cases, inl, inr, lt→ltb,
  Option, false, ap,
}
use gnaro.Memory.{Pager, ok, exited, fault, page_size, put}
use gnaro.Memory.Bytes.{Page}
use gnaro.Memory.Laws.{update_self, update_ne}
use gnaro.Pager.{
  Env, pager_max_pages, pager_get_page, pager_get_unused_page_num, read_page, loaded, load_page,
  file_offset,
}

-- A page that is in the cache is returned, and nothing changes.
pub get_page-cached :
    (env : Env) (n : ℕ) (s : Pager) {p : Page}
    → n < pager_max_pages
    → s.pages n ≡ some p
    → pager_get_page env n s ≡ ok n s
unfolding pager_get_page
get_page-cached env n s small here =
    rw (le→not_ltb pager_max_pages n (omega arith), ne→not_== n pager_max_pages (omega arith), here)

pub get_page-put :
    (env : Env) (n : ℕ) (p : Page) (s : Pager)
    → n < pager_max_pages
    → pager_get_page env n (put n p s) ≡ ok n (put n p s)
get_page-put env n p s small =
    get_page-cached env n (put n p s) small (update_self s.pages n (some p))

-- A partial page at the end of the file counts.
abbrev pub pages_in_file : Pager → ℕ
pages_in_file s = s.file_length / page_size + (if s.file_length % page_size == 0 then 0 else 1)

-- Only the file's part of a page is read; behind it the bytes are those that `malloc` left.
abbrev pub first_content : Env → Pager → ℕ → Page
first_content env s n =
    if leb n (pages_in_file s)
    then read_page s.file_descriptor (file_offset env (n * page_size)) (env.fresh n)
    else env.fresh n

-- What a successful call for page `n` leaves behind: the page is in the cache, with its old content
-- or else with the file's; the other pages and the file are as before; and a page that was loaded is
-- counted.
pub record Fetched (env : Env) (n : ℕ) (s t : Pager) : Type 0 where
  pub page : Page
  pub cached : t.pages n ≡ some page
  pub others : (k : ℕ) → k ≢ n → t.pages k ≡ s.pages k
  pub kept : (q : Page) → s.pages n ≡ some q → t ≡ s
  pub content : s.pages n ≡ none → page ≡ first_content env s n
  pub file : t.file_descriptor ≡ s.file_descriptor
  pub grown : s.num_pages ≤ t.num_pages
  pub counted : s.pages n ≡ none → n < t.num_pages
  pub bounded : (t.num_pages ≡ s.num_pages) ⊎ (t.num_pages ≡ n + 1)

module _ (env : Env) (n : ℕ) (s : Pager) where
  cached-Fetched : (p : Page) → s.pages n ≡ some p → Fetched env n s s
  cached-Fetched p hit = record {
    page = p;
    cached = hit;
    others = λ k h. refl;
    kept = λ q h. refl;
    content = λ miss. absurd (cc);
    file = refl;
    grown = omega arith;
    counted = λ miss. absurd (cc);
    bounded = inl refl;
  }

  loaded-Fetched : s.pages n ≡ none → Fetched env n s (loaded n (first_content env s n) s)
  loaded-Fetched miss = record {
    page = first_content env s n;
    cached = update_self s.pages n (some (first_content env s n));
    others = λ k h. update_ne s.pages n k (some (first_content env s n)) h;
    kept = λ q hit. absurd (cc);
    content = λ h. refl;
    file = refl;
    grown = ground arith;
    counted = λ h. ground arith;
    bounded = elim (Bool-cases (leb s.num_pages n)) [
      | inl e ↦ inr (rw e refl)
      | inr e ↦ inl (rw e refl)
    ];
  }

  load_page-loaded :
      (n ≤ pages_in_file s → env.read_fails (file_offset env (n * page_size)) ≡ false)
      → load_page env n s ≡ ok n (loaded n (first_content env s n) s)
  unfolding load_page
  load_page-loaded reads = elim (Bool-cases (leb n (pages_in_file s))) [
    | inl inside ↦ rw (inside, reads (leb→le n (pages_in_file s) inside)) refl
    | inr beyond ↦ rw beyond refl
  ]

  page_below : n < pager_max_pages → s.pages n ≡ none → pager_get_page env n s ≡ load_page env n s
  unfolding pager_get_page
  page_below small miss =
      rw
        (
          le→not_ltb pager_max_pages n (omega arith),
          ne→not_== n pager_max_pages (omega arith),
          miss,
        )
        refl

  -- How a call ends, the four ends with the calls of which they are the end.
  pub data GetPageEnd : Type 0 where
    delivered :
        n < pager_max_pages
        → (t : Pager) → pager_get_page env n s ≡ ok n t
        → Fetched env n s t
        → GetPageEnd
    unreadable :
        n < pager_max_pages
        → s.pages n ≡ none
        → n ≤ pages_in_file s
        → env.read_fails (file_offset env (n * page_size)) ≡ true
        → pager_get_page env n s ≡ exited
        → GetPageEnd
    at_limit : n ≡ pager_max_pages → pager_get_page env n s ≡ fault → GetPageEnd
    beyond_limit : pager_max_pages < n → pager_get_page env n s ≡ exited → GetPageEnd

  load-GetPageEnd : n < pager_max_pages → s.pages n ≡ none → GetPageEnd
  load-GetPageEnd small miss = elim (Bool-cases (leb n (pages_in_file s))) [
    | inl inside ↦ elim (Bool-cases (env.read_fails (file_offset env (n * page_size)))) [
      | inl fails ↦
          unreadable small miss (leb→le n (pages_in_file s) inside) fails
            (page_below small miss ∙ exits inside fails)
      | inr reads ↦ fetched (λ h. reads)
    ]
    | inr beyond ↦
        fetched (λ h. let out = not_leb→lt n (pages_in_file s) beyond in absurd (omega arith))
  ]
    where
      exits :
          leb n (pages_in_file s) ≡ true
          → env.read_fails (file_offset env (n * page_size)) ≡ true
          → load_page env n s ≡ exited
      exits inside fails = unfold load_page in rw (inside, fails) refl

      fetched :
          (n ≤ pages_in_file s → env.read_fails (file_offset env (n * page_size)) ≡ false)
          → GetPageEnd
      fetched reads =
          delivered small (loaded n (first_content env s n) s)
            (page_below small miss ∙ load_page-loaded reads) (loaded-Fetched miss)

  pub get_page-GetPageEnd : GetPageEnd
  get_page-GetPageEnd = elim (Bool-cases (ltb n pager_max_pages)) [
    | inl below ↦ let small : n < pager_max_pages = ground arith in by_page small (s.pages n) refl
    | inr above ↦ elim (Bool-cases (n == pager_max_pages)) [
      | inl limit ↦
          let same : n ≡ pager_max_pages = ==→eq n pager_max_pages limit in
          at_limit same (unfold pager_get_page in rw same refl)
      | inr other ↦
          let beyond : pager_max_pages < n = ground arith in
          beyond_limit beyond (unfold pager_get_page in rw (lt→ltb pager_max_pages n beyond) refl)
    ]
  ]
    where
      by_page : n < pager_max_pages → (q : Option Page) → s.pages n ≡ q → GetPageEnd
      by_page small none miss = load-GetPageEnd small miss
      by_page small (some p) hit =
          delivered small s (get_page-cached env n s small hit) (cached-Fetched p hit)

  -- Where reading does not fail, each page below the limit is delivered.
  pub get_page-Fetched :
      n < pager_max_pages
      → ((o : ℕ) → env.read_fails o ≡ false)
      → (t : Pager) × (pager_get_page env n s ≡ ok n t) × Fetched env n s t
  get_page-Fetched small reads = by_page (s.pages n) refl
    where
      by_page :
          (q : Option Page)
          → s.pages n ≡ q
          → (t : Pager) × (pager_get_page env n s ≡ ok n t) × Fetched env n s t
      by_page none miss = (
        loaded n (first_content env s n) s,
        page_below small miss ∙ load_page-loaded (λ h. reads (file_offset env (n * page_size))),
        loaded-Fetched miss,
      )
      by_page (some p) hit = (s, get_page-cached env n s small hit, cached-Fetched p hit)

pub get_unused_page_num_lem :
    (s : Pager) (n : ℕ) → s.num_pages ≡ n → pager_get_unused_page_num s ≡ ok n s
unfolding pager_get_unused_page_num
get_unused_page_num_lem s n e = ap (λ m. ok m s) e
