-- ===== src/Database/Flushed.antt =====
-- What flushing a range of pages leaves in the file: each cached page at its place.
use gnaro.Base.{
  ℕ, suc, ◌+◌, ◌*◌, ◌≤◌, ◌<◌, ◌≡◌, refl, ◌∙◌, ◌≢◌, ◌⊎◌, inl, inr, arith, Bool-cases, ◌==◌, none,
  some, ==→eq,
}
use gnaro.Memory.{Pager, page_size, update}
use gnaro.Memory.Bytes.{Page}
use gnaro.Memory.Laws.{update_ne}
use gnaro.Pager.{write_page}
use gnaro.Pager.Disk.{byte_of, write_page_self, write_page_other, size-write_page}

-- What flushing the pages from `i` up to `end` does to the file.
pub record Flushed (i end : ℕ) (s t : Pager) : Type 0 where
  pub written :
      (k : ℕ) (p : Page) (a : ℕ)
      → i ≤ k
      → k < end
      → s.pages k ≡ some p
      → a < page_size
      → byte_of t.file_descriptor k a ≡ p a
  pub reached :
      (k : ℕ) (p : Page)
      → i ≤ k
      → k < end
      → s.pages k ≡ some p
      → (k + 1) * page_size ≤ t.file_descriptor.size
  pub kept :
      (k a : ℕ)
      → ((k < i) ⊎ (s.pages k ≡ none))
      → a < page_size
      → k * page_size + a < s.file_descriptor.size
      → byte_of t.file_descriptor k a ≡ byte_of s.file_descriptor k a
  pub grown : s.file_descriptor.size ≤ t.file_descriptor.size
  pub bounded :
      (t.file_descriptor.size ≡ s.file_descriptor.size)
      ⊎ ((n : ℕ) × (n ≤ end) × (t.file_descriptor.size ≡ n * page_size))

-- The state after page `i` has been flushed and dropped.
abbrev pub dropped : (i : ℕ) → Page → Pager → Pager
dropped i p s = record s {
  file_descriptor = write_page s.file_descriptor i p;
  pages = update s.pages i none;
}

-- One more page in front of those that have been flushed: it was not cached.
pub Flushed-none :
    (i end : ℕ) (s t : Pager) → s.pages i ≡ none → Flushed (suc i) end s t → Flushed i end s t
Flushed-none i end s t miss f = record {
  written = λ k p a low high here small.
      let past : i ≢ k = λ e. cc in f.written k p a (omega arith) high here small;
  reached =
      λ k p low high here. let past : i ≢ k = λ e. cc in f.reached k p (omega arith) high here;
  kept = λ k a out small inside. f.kept k a (further k out) small inside;
  grown = f.grown;
  bounded = f.bounded;
}
  where
    further : (k : ℕ) → (k < i) ⊎ (s.pages k ≡ none) → (k < suc i) ⊎ (s.pages k ≡ none)
    further k (inl low) = inl (omega arith)
    further k (inr gone) = inr gone

module _ (i end : ℕ) (s t : Pager) (p : Page) (here : s.pages i ≡ some p) (low : i < end)
    (f : Flushed (suc i) end (dropped i p s) t) where
  still : (k : ℕ) → k ≢ i → (dropped i p s).pages k ≡ s.pages k
  still k h = update_ne s.pages i k none h

  first_written : (a : ℕ) → a < page_size → byte_of t.file_descriptor i a ≡ p a
  first_written a small =
      let (wide, _, _) = size-write_page s.file_descriptor i p in
      f.kept i a (inl (omega arith)) small (omega arith)
      ∙ write_page_self s.file_descriptor i p a small

  later_written :
      (k : ℕ) (q : Page) (a : ℕ)
      → i ≤ k
      → k < end
      → s.pages k ≡ some q
      → a < page_size
      → byte_of t.file_descriptor k a ≡ q a
  later_written k q a le lt cached small = elim (Bool-cases (k == i)) [
    | inl e ↦ let same = ==→eq k i e in let first = first_written a small in cc
    | inr e ↦
        let apart : k ≢ i = λ e'. ground arith in
        f.written k q a (omega arith) lt (still k apart ∙ cached) small
  ]

  behind :
      (k : ℕ)
      → (k < i) ⊎ (s.pages k ≡ none)
      → (k ≢ i) × ((k < suc i) ⊎ ((dropped i p s).pages k ≡ none))
  behind k (inl before) = (λ e. omega (arith, e), inl (omega arith))
  behind k (inr gone) = let apart : k ≢ i = λ e. cc in (apart, inr (still k apart ∙ gone))

  kept_behind :
      (k a : ℕ)
      → ((k < i) ⊎ (s.pages k ≡ none))
      → a < page_size
      → k * page_size + a < s.file_descriptor.size
      → byte_of t.file_descriptor k a ≡ byte_of s.file_descriptor k a
  kept_behind k a out small inside =
      let (apart, further) = behind k out in
      let (_, wider, _) = size-write_page s.file_descriptor i p in
      f.kept k a further small (omega arith)
      ∙ write_page_other s.file_descriptor i p k a apart small inside

  later_reached :
      (k : ℕ) (q : Page)
      → i ≤ k
      → k < end
      → s.pages k ≡ some q
      → (k + 1) * page_size ≤ t.file_descriptor.size
  later_reached k q le lt cached =
      let (wide, _, _) = size-write_page s.file_descriptor i p in
      let longer = f.grown in
      elim (Bool-cases (k == i)) [
        | inl e ↦ let same = ==→eq k i e in omega arith
        | inr e ↦
            let apart : k ≢ i = λ e'. ground arith in
            f.reached k q (omega arith) lt (still k apart ∙ cached)
      ]

  still_bounded :
      (t.file_descriptor.size ≡ s.file_descriptor.size)
      ⊎ ((n : ℕ) × (n ≤ end) × (t.file_descriptor.size ≡ n * page_size))
  still_bounded = elim f.bounded [
    | inl same ↦
        let (_, _, size) = size-write_page s.file_descriptor i p in
        elim size [ inl old ↦ inl (same ∙ old) | inr new ↦ inr (i + 1, omega arith, same ∙ new) ]
    | inr pages ↦ inr pages
  ]

  -- One more page in front of those that have been flushed: it was cached.
  pub Flushed-some : Flushed i end s t
  Flushed-some = record {
    written = later_written;
    reached = later_reached;
    kept = kept_behind;
    grown =
        let (_, wider, _) = size-write_page s.file_descriptor i p in
        let longer = f.grown in omega arith;
    bounded = still_bounded;
  }

pub Flushed-all : (i end : ℕ) (s : Pager) → end ≤ i → Flushed i end s s
Flushed-all i end s h = record {
  written = λ k p a le lt cached small. absurd (omega arith);
  reached = λ k p le lt cached. absurd (omega arith);
  kept = λ k a out small inside. refl;
  grown = omega arith;
  bounded = inl refl;
}
