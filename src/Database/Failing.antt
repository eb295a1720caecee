-- ===== src/Database/Failing.antt =====
-- Every way in which `database_close` of src/database.c ends.
use gnaro.Base.{
  ℕ, zero, suc, ◌≤◌, ◌<◌, ◌≡◌, refl, ◌∙◌, sym, ap, arith, Bool, Option, none, some, ◌⊎◌, inl, inr,
  ◌==◌, ==→eq, leb, Bool-cases, if◌then◌else◌,
}
use mathlib.Core.Path.{subst}
use gnaro.Memory.{Pager, ok, exited, fault}
use gnaro.Memory.Bytes.{Page}
use gnaro.Pager.{Env, pager_max_pages}
use gnaro.Database.{DatabaseResult, close_success, close_fail, database_close}
use gnaro.Database.Written.{
  Works, Fails, Works-or_Fails, flush_loop-exits, flush_loop-returns, flush_loop-faults,
}

-- Each of the first `bound` pages that is cached can be written.
AllWork : Env → Pager → (bound : ℕ) → Type 0
AllWork env s bound = (j : ℕ) (p : Page) → j < bound → s.pages j ≡ some p → Works env j

-- One of the first `bound` pages is cached and cannot be written.
SomeFails : Env → Pager → (bound : ℕ) → Type 0
SomeFails env s bound = (j : ℕ) × (p : Page) × (j < bound) × (s.pages j ≡ some p) × Fails env j

widen : (env : Env) (s : Pager) (n : ℕ) → SomeFails env s n → SomeFails env s (suc n)
unfolding SomeFails
widen env s n (j, p, low, here, fails) = (j, p, omega arith, here, fails)

AllWork-suc :
    (env : Env) (s : Pager) (n : ℕ)
    → AllWork env s n
    → ((p : Page) → s.pages n ≡ some p → Works env n)
    → AllWork env s (suc n)
unfolding AllWork
AllWork-suc env s n all here j p low at = elim (Bool-cases (j == n)) [
  | inl same ↦
      let e : j ≡ n = ==→eq j n same in
      subst (λ (k : ℕ). Works env k) (sym e) (here p (ap (λ (k : ℕ). s.pages k) (sym e) ∙ at))
  | inr other ↦ all j p (ground arith) at
]

last_page :
    (env : Env) (s : Pager) (n : ℕ) (page : Option Page)
    → s.pages n ≡ page
    → ((p : Page) → s.pages n ≡ some p → Works env n) ⊎ SomeFails env s (suc n)
unfolding SomeFails
last_page env s n none miss = inl (λ p here. absurd (cc))
last_page env s n (some q) at = elim (Works-or_Fails env n) [
  | inl works ↦ inl (λ p here. works)
  | inr fails ↦ inr (n, q, omega arith, at, fails)
]

all_or_some : (env : Env) (s : Pager) (n : ℕ) → AllWork env s n ⊎ SomeFails env s n
unfolding AllWork
all_or_some env s zero = inl (λ j p low at. absurd (omega arith))
all_or_some env s (suc n) = elim (all_or_some env s n) [
  | inr some_fail ↦ inr (widen env s n some_fail)
  | inl all ↦ elim (last_page env s n (s.pages n) refl) [
    | inl last ↦ inl (AllWork-suc env s n all last)
    | inr fails ↦ inr fails
  ]
]

closing : Bool → DatabaseResult
closing close_fails = if close_fails then close_fail else close_success

-- The three ends of closing, each with the states of which it is the end.
pub IsClosed : Env → Bool → Pager → Type 0
IsClosed env close_fails s =
    (AllWork env s s.num_pages
      × (s.num_pages ≤ pager_max_pages)
      × ((t : Pager) × (database_close env close_fails s ≡ ok (closing close_fails) t)))
    ⊎ ((SomeFails env s s.num_pages
          × SomeFails env s pager_max_pages
          × (database_close env close_fails s ≡ exited))
        ⊎ (AllWork env s pager_max_pages
            × (pager_max_pages < s.num_pages)
            × (database_close env close_fails s ≡ fault)))

module _ (env : Env) (close_fails : Bool) (s : Pager) where
  close-works :
      AllWork env s s.num_pages
      → s.num_pages ≤ pager_max_pages
      → (t : Pager) × (database_close env close_fails s ≡ ok (closing close_fails) t)
  unfolding AllWork database_close closing
  close-works works few =
      let (t, runs) =
        flush_loop-returns env s.num_pages 0 s (omega arith)
          (λ j p low high here. works j p (omega arith) here) in
      elim (Bool-cases close_fails) [
        | inl fails ↦ (t, rw (runs, fails))
        | inr succeeds ↦ (record t { pages = λ _. none }, rw (runs, succeeds))
      ]

  close-exits :
      (j : ℕ) (p : Page)
      → j < s.num_pages
      → j < pager_max_pages
      → s.pages j ≡ some p
      → Fails env j
      → database_close env close_fails s ≡ exited
  unfolding database_close
  close-exits j p low small here fails =
      rw (flush_loop-exits env s.num_pages 0 j p s (omega arith) (omega arith) small here fails)

  close-faults :
      AllWork env s pager_max_pages
      → pager_max_pages < s.num_pages
      → database_close env close_fails s ≡ fault
  unfolding AllWork database_close
  close-faults works many = rw (
      flush_loop-faults env s.num_pages 0 s (omega arith) (omega arith)
        (λ j p low high here. works j p high here))

  -- Closing a database with at most 100 pages, each of the cached ones below the count written
  -- without a failure of lseek or write, returns what `close` on the file makes of it. If one of them
  -- cannot be written, the program exits. With more than 100 pages, each cached one among the first
  -- 100 written, the loop runs past the array of pages, which is undefined. There is no other case.
  pub database_close-IsClosed : IsClosed env close_fails s
  unfolding IsClosed SomeFails
  database_close-IsClosed = elim (Bool-cases (leb s.num_pages pager_max_pages)) [
    | inl at_most ↦
        let few : s.num_pages ≤ pager_max_pages = ground arith in
        elim (all_or_some env s s.num_pages) [
          | inl works ↦ inl (works, few, close-works works few)
          | inr (j, p, low, here, fails) ↦ inr (
              inl (
                (j, p, low, here, fails),
                (j, p, omega arith, here, fails),
                close-exits j p low (omega arith) here fails,
              ))
        ]
    | inr above ↦
        let many : pager_max_pages < s.num_pages = ground arith in
        elim (all_or_some env s pager_max_pages) [
          | inl works ↦ inr (inr (works, many, close-faults works many))
          | inr (j, p, small, here, fails) ↦ inr (
              inl (
                (j, p, omega arith, here, fails),
                (j, p, small, here, fails),
                close-exits j p (omega arith) small here fails,
              ))
        ]
  ]
