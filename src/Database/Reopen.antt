-- ===== src/Database/Reopen.antt =====
-- A database that is closed and opened again delivers the pages it had.
use gnaro.Base.{
  ℕ, ◌+◌, ◌*◌, ◌/◌, ◌%◌, ◌^◌, ◌≤◌, ◌<◌, ◌≡◌, refl, inl, inr, arith, some, none, false, true, leb,
  ◌==◌, if◌then◌else◌, lt→ltb, le→leb,
}
use gnaro.Memory.{File, Pager, ok, page_size}
use gnaro.Memory.Bytes.{Page}
use gnaro.Pager.{Env, pager_max_pages, pager_open, pager_get_page, read_page, file_offset}
use gnaro.Pager.Cache.{get_page-Fetched, first_content}
use gnaro.Database.{close_success, database_close}
use gnaro.Pager.Disk.{byte_of}
use gnaro.Database.Flushed.{Flushed}
use gnaro.Database.Close.{flush_loop-Flushed}

-- `t` has a page `k` that agrees with `p` on its 4096 bytes, when `pager_get_page` asks for it.
pub record Delivers (env : Env) (t : Pager) (k : ℕ) (p : Page) : Type 0 where
  pub counted : k < t.num_pages
  pub state : Pager
  pub page : Page
  pub runs : pager_get_page env k t ≡ ok k state
  pub cached : state.pages k ≡ some page
  pub same : (a : ℕ) → a < page_size → page a ≡ p a

-- The state of a pager that has just been opened.
abbrev reopened : File → Pager
reopened fd = record {
  file_descriptor = fd;
  file_length = fd.size % 2 ^ 32;
  num_pages = fd.size / page_size % 2 ^ 32;
  pages = λ _. none;
}

pager_open-reopened :
    (fd : File) → fd.size % page_size ≡ 0 → pager_open (some fd) ≡ some (reopened fd)
unfolding pager_open
pager_open-reopened fd whole =
    let test : (fd.size % page_size == 0) ≡ true = ground arith in rw test refl

counted :
    (k size rest : ℕ)
    → size < 2 ^ 32
    → k ≤ size / page_size
    → leb k (size % 2 ^ 32 / page_size + rest) ≡ true
counted k size rest small h =
    let unwrapped : size % 2 ^ 32 ≡ size = omega arith in
    le→leb k (size % 2 ^ 32 / page_size + rest) (omega arith)

-- A page within the file is read from there.
content_within :
    (env : Env) (fd : File) (k : ℕ) (p : Page)
    → env.seek_fails (k * page_size) ≡ false
    → fd.size < 2 ^ 32
    → (k + 1) * page_size ≤ fd.size
    → ((a : ℕ) → a < page_size → byte_of fd k a ≡ p a)
    → (a : ℕ) → a < page_size
    → first_content env (reopened fd) k a ≡ p a
unfolding read_page file_offset
content_within env fd k p seeks small inside holds a h =
    let first : k ≤ fd.size / page_size = omega arith in
    let within : k * page_size + a < fd.size = omega arith in
    let rest : ℕ = if (reopened fd).file_length % page_size == 0 then 0 else 1 in
    rw
      (
        counted k fd.size rest small first,
        seeks,
        lt→ltb a page_size h,
        lt→ltb (k * page_size + a) fd.size within,
      )
      (holds a h)

counted_page :
    (k size : ℕ) → (k + 1) * page_size ≤ size → size < 2 ^ 32 → k < size / page_size % 2 ^ 32
counted_page k size inside small =
    let unwrapped : size / page_size % 2 ^ 32 ≡ size / page_size = omega arith in omega arith

reopened-Delivers :
    (env : Env) (fd : File) (k : ℕ) (p : Page)
    → ((o : ℕ) → env.seek_fails o ≡ false)
    → ((o : ℕ) → env.read_fails o ≡ false)
    → k < pager_max_pages
    → fd.size < 2 ^ 32
    → (k + 1) * page_size ≤ fd.size
    → ((a : ℕ) → a < page_size → byte_of fd k a ≡ p a)
    → Delivers env (reopened fd) k p
reopened-Delivers env fd k p seeks reads few small inside holds =
    let (t, runs, f) = get_page-Fetched env k (reopened fd) few reads in
    record {
      counted = counted_page k fd.size inside small;
      state = t;
      page = f.page;
      runs = runs;
      cached = f.cached;
      same = λ a h.
          let read = content_within env fd k p (seeks (k * page_size)) small inside holds a h in
          rw (f.content refl) read;
    }

-- Closing a database with at most 100 pages, whose file is a whole number of pages and has at most
-- 100 of them, where seeking, writing and `close` do not fail, succeeds. Opening the file it leaves
-- succeeds too, and, where reading does not fail, delivers each page that was cached, as it was.
pub database_close-Delivers :
    (env : Env) (s : Pager)
    → ((o : ℕ) → env.seek_fails o ≡ false)
    → ((o : ℕ) → env.write_fails o ≡ false)
    → ((o : ℕ) → env.read_fails o ≡ false)
    → s.num_pages ≤ pager_max_pages
    → s.file_descriptor.size % page_size ≡ 0
    → s.file_descriptor.size ≤ pager_max_pages * page_size
    → (t u : Pager) × (database_close env false s ≡ ok close_success t)
      × (pager_open (some t.file_descriptor) ≡ some u)
      × ((k : ℕ) (p : Page) → k < s.num_pages → s.pages k ≡ some p → Delivers env u k p)
unfolding database_close
database_close-Delivers env s seeks writes reads few whole short =
    let (t, runs, f) =
      flush_loop-Flushed env seeks writes s.num_pages 0 s.num_pages s (omega arith) few in
    (
      record t { pages = λ _. none },
      reopened t.file_descriptor,
      rw runs refl,
      pager_open-reopened t.file_descriptor (whole_after t f),
      λ k p low here.
          reopened-Delivers env t.file_descriptor k p seeks reads (omega arith) (small_after t f)
            (f.reached k p (omega arith) low here) λ a h. f.written k p a (omega arith) low here h,
    )
  where
    whole_after : (t : Pager) → Flushed 0 s.num_pages s t → t.file_descriptor.size % page_size ≡ 0
    whole_after t f = elim f.bounded [ inl same ↦ rw same whole | inr (n, le, size) ↦ omega arith ]

    small_after : (t : Pager) → Flushed 0 s.num_pages s t → t.file_descriptor.size < 2 ^ 32
    small_after t f = elim f.bounded [ inl same ↦ omega arith | inr (n, le, size) ↦ omega arith ]
