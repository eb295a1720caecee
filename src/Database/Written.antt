-- ===== src/Database/Written.antt =====
-- The rounds and the loop with which `database_close` of src/database.c flushes the pages, when
-- lseek and write may fail.
use gnaro.Base.{
  ℕ, zero, suc, ◌+◌, ◌*◌, ◌≤◌, ◌<◌, ◌≡◌, ◌≢◌, refl, ◌∙◌, sym, arith, true, false, Option, none,
  some, ◌⊎◌, inl, inr, ◌==◌, ==→eq, Bool-cases, lt→not_leb, le→leb,
}
use gnaro.Memory.{Pager, ok, exited, fault, page_size}
use gnaro.Memory.Bytes.{Page}
use gnaro.Memory.Laws.{update_ne}
use gnaro.Pager.{Env, pager_max_pages, pager_flush}
use gnaro.Database.{flush_page, flush_loop}
use gnaro.Database.Flushed.{dropped}

-- Seeking and writing at the place of page `i`.
abbrev pub Works : Env → ℕ → Type 0
Works env i = (env.seek_fails (i * page_size) ≡ false) × (env.write_fails (i * page_size) ≡ false)

abbrev pub Fails : Env → ℕ → Type 0
Fails env i = (env.seek_fails (i * page_size) ≡ true) ⊎ (env.write_fails (i * page_size) ≡ true)

pub Works-or_Fails : (env : Env) (i : ℕ) → Works env i ⊎ Fails env i
Works-or_Fails env i = elim (Bool-cases (env.seek_fails (i * page_size))) [
  | inl bad ↦ inr (inl bad)
  | inr good ↦ elim (Bool-cases (env.write_fails (i * page_size))) [
    | inl bad ↦ inr (inr bad)
    | inr fine ↦ inl (good, fine)
  ]
]

module _ (env : Env) (i : ℕ) (s : Pager) (small : i < pager_max_pages) where
  flush_page-uncached : s.pages i ≡ none → flush_page env i s ≡ ok tt s
  unfolding flush_page
  flush_page-uncached miss = rw (lt→not_leb pager_max_pages i small, miss)

  flush_page-Works :
      (p : Page) → s.pages i ≡ some p → Works env i → flush_page env i s ≡ ok tt (dropped i p s)
  unfolding flush_page pager_flush
  flush_page-Works p here (seeks, writes) = rw (
    lt→not_leb pager_max_pages i small,
    here,
    lt→not_leb pager_max_pages i small,
    here,
    seeks,
    writes,
  )

  flush_page-Fails : (p : Page) → s.pages i ≡ some p → Fails env i → flush_page env i s ≡ exited
  unfolding flush_page pager_flush
  flush_page-Fails p here (inl bad) =
      rw (lt→not_leb pager_max_pages i small, here, lt→not_leb pager_max_pages i small, here, bad)
  flush_page-Fails p here (inr bad) = elim (Bool-cases (env.seek_fails (i * page_size))) [
    | inl seek ↦
        rw
          (lt→not_leb pager_max_pages i small, here, lt→not_leb pager_max_pages i small, here, seek)
    | inr seek ↦ rw (
      lt→not_leb pager_max_pages i small,
      here,
      lt→not_leb pager_max_pages i small,
      here,
      seek,
      bad,
    )
  ]

  -- A round exits, or leaves the other pages alone.
  flush_page-cases :
      (page : Option Page)
      → s.pages i ≡ page
      → (flush_page env i s ≡ exited)
        ⊎ ((t : Pager) × (flush_page env i s ≡ ok tt t) × ((k : ℕ) → k ≢ i → t.pages k ≡ s.pages k))
  flush_page-cases none miss = inr (s, flush_page-uncached miss, λ k ne. refl)
  flush_page-cases (some p) here = elim (Works-or_Fails env i) [
    | inl works ↦
        inr (dropped i p s, flush_page-Works p here works, λ k ne. update_ne s.pages i k none ne)
    | inr fails ↦ inl (flush_page-Fails p here fails)
  ]

-- A round that works on what is cached.
flush_page-goes :
    (env : Env) (i : ℕ) (s : Pager)
    → i < pager_max_pages
    → ((p : Page) → s.pages i ≡ some p → Works env i)
    → (page : Option Page) → s.pages i ≡ page
    → (t : Pager) × (flush_page env i s ≡ ok tt t) × ((k : ℕ) → k ≢ i → t.pages k ≡ s.pages k)
flush_page-goes env i s small works none miss =
    (s, flush_page-uncached env i s small miss, λ k ne. refl)
flush_page-goes env i s small works (some p) here = (
  dropped i p s,
  flush_page-Works env i s small p here (works p here),
  λ k ne. update_ne s.pages i k none ne,
)

flush_page-beyond :
    (env : Env) (i : ℕ) (s : Pager) → pager_max_pages ≤ i → flush_page env i s ≡ fault
unfolding flush_page
flush_page-beyond env i s h = rw (le→leb pager_max_pages i h)

module _ (env : Env) where
  -- A cached page that cannot be written makes the loop exit.
  pub flush_loop-exits :
      (rounds i j : ℕ) (p : Page) (s : Pager)
      → i ≤ j
      → j < i + rounds
      → j < pager_max_pages
      → s.pages j ≡ some p
      → Fails env j
      → flush_loop env rounds i s ≡ exited
  unfolding flush_loop
  flush_loop-exits zero i j p s low high small here fails = absurd (omega arith)
  flush_loop-exits (suc rounds) i j p s low high small here fails = elim (Bool-cases (j == i)) [
    | inl at ↦
        let same : j ≡ i = ==→eq j i at in
        rw (flush_page-Fails env i s (omega arith) p (rw same at here) (rw same at fails))
    | inr other ↦
        let ne : j ≢ i = λ same. ground arith in
        elim (flush_page-cases env i s (omega arith) (s.pages i) refl) [
          | inl exits ↦ rw exits
          | inr (t, runs, kept) ↦ rw runs (
              flush_loop-exits rounds (i + 1) j p t (omega arith) (omega arith) small
                (kept j ne ∙ here) fails)
        ]
  ]

  -- If the cached pages can be written, the loop returns, or comes to the end of the array.
  pub flush_loop-returns :
      (rounds i : ℕ) (s : Pager)
      → i + rounds ≤ pager_max_pages
      → ((j : ℕ) (p : Page) → i ≤ j → j < i + rounds → s.pages j ≡ some p → Works env j)
      → (t : Pager) × (flush_loop env rounds i s ≡ ok tt t)
  unfolding flush_loop
  flush_loop-returns zero i s few works = (s, refl)
  flush_loop-returns (suc rounds) i s few works =
      let (t, runs, kept) =
        flush_page-goes env i s (omega arith) (λ p here. works i p (omega arith) (omega arith) here)
          (s.pages i) refl in
      let (u, rest) = flush_loop-returns rounds (i + 1) t (omega arith) (λ j p low high here.
        works j p (omega arith) (omega arith) (sym (kept j (λ e. omega arith)) ∙ here)) in
      (u, rw (runs, rest))

  pub flush_loop-faults :
      (rounds i : ℕ) (s : Pager)
      → i ≤ pager_max_pages
      → pager_max_pages < i + rounds
      → ((j : ℕ) (p : Page) → i ≤ j → j < pager_max_pages → s.pages j ≡ some p → Works env j)
      → flush_loop env rounds i s ≡ fault
  unfolding flush_loop
  flush_loop-faults zero i s low high works = absurd (omega arith)
  flush_loop-faults (suc rounds) i s low high works = elim (Bool-cases (i == pager_max_pages)) [
    | inl end ↦
        let same : i ≡ pager_max_pages = ==→eq i pager_max_pages end in
        rw (flush_page-beyond env i s (omega arith))
    | inr inside ↦
        let small : i < pager_max_pages = ground arith in
        let (t, runs, kept) =
          flush_page-goes env i s small (λ p here. works i p (omega arith) small here) (s.pages i)
            refl in
        rw runs (
          flush_loop-faults rounds (i + 1) t (omega arith) (omega arith) (λ j p below high here.
            works j p (omega arith) high (sym (kept j (λ e. omega arith)) ∙ here)))
  ]
