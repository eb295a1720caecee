-- ===== src/Pager.antt =====
-- src/pager.c and include/pager.h: the page cache over the database file.
pub mod Cache
pub mod Disk
pub mod Steps
use gnaro.Base.{
  ℕ, ◌+◌, ◌-◌, ◌*◌, ◌/◌, ◌%◌, ◌^◌, Bool, true, false, Option, none, some, ◌&&◌, leb, ltb, ◌==◌,
  if◌then◌else◌,
}
use gnaro.Memory.{File, Pager, Run, ok, exited, fault, Cmd, pure, exit, page_size, update, put}
use gnaro.Memory.Bytes.{Page}

abbrev pub pager_max_pages : ℕ
pager_max_pages = 100

-- What the system decides: the bytes that `malloc` leaves in a new page, at which offsets a call of
-- `read`, `lseek` or `write` on the database file fails, and where the file stands after an `lseek`
-- to an offset that failed. A `write` that does not fail writes the whole page.
pub record Env : Type 0 where
  pub fresh : ℕ → Page
  pub read_fails : ℕ → Bool
  pub seek_fails : ℕ → Bool
  pub write_fails : ℕ → Bool
  pub position : ℕ → ℕ

-- `open` gives the file, or fails. A failed `lseek` is the answer `none` too: the code takes its -1
-- for the length, which is no whole number of pages. A file that is not a whole number of pages is refused.
unfoldable pub pager_open : Option File → Option Pager
pager_open none = none
pager_open (some fd) =
    if fd.size % page_size == 0
    then some (record {
      file_descriptor = fd;
      file_length = fd.size % 2 ^ 32;
      num_pages = fd.size / page_size % 2 ^ 32;
      pages = λ _. none;
    })
    else none

-- The buffer after `read` of one page at `offset`: what lies behind the file's end stays as it was.
unfoldable pub read_page : File → (offset : ℕ) → Page → Page
read_page f offset buffer a =
    if ltb a page_size && ltb (offset + a) f.size then f.bytes (offset + a) else buffer a

-- The file with page `n` written at its place.
unfoldable pub write_page : File → ℕ → Page → File
write_page f n p = record {
  size = if ltb f.size ((n + 1) * page_size) then (n + 1) * page_size else f.size;
  bytes = λ a.
      if leb (n * page_size) a && ltb a ((n + 1) * page_size)
      then p (a - n * page_size)
      else if ltb a f.size
      then f.bytes a
      else 0;
}

-- The cache after page `n` has been loaded.
abbrev pub loaded : ℕ → Page → Pager → Pager
loaded n p s = record s {
  num_pages = if leb s.num_pages n then n + 1 else s.num_pages;
  pages = update s.pages n (some p);
}

module _ (env : Env) where
  -- Where the file stands after `lseek` to an offset, whose result `pager_get_page` does not test.
  unfoldable pub file_offset : ℕ → ℕ
  file_offset offset = if env.seek_fails offset then env.position offset else offset

  -- The cache miss of `pager_get_page`.
  unfoldable pub load_page : ℕ → Cmd ℕ
  load_page n s =
      let num_pages =
        s.file_length / page_size + (if s.file_length % page_size == 0 then 0 else 1) in
      if leb n num_pages
      then (if env.read_fails (file_offset (n * page_size))
          then exited
          else ok n (
              loaded n (read_page s.file_descriptor (file_offset (n * page_size)) (env.fresh n)) s))
      else ok n (loaded n (env.fresh n) s)

  -- The pointer that is returned is the page's number. The array has `pager_max_pages` entries, so
  -- the access at that very index is undefined.
  unfoldable pub pager_get_page : ℕ → Cmd ℕ
  unfolding load_page
  pager_get_page n s =
      if ltb pager_max_pages n
      then exited
      else if n == pager_max_pages
      then fault
      else elim (s.pages n) [ none ↦ load_page n s | some p ↦ ok n s ]

  unfoldable pub pager_flush : ℕ → Cmd (Unit {0})
  pager_flush n s = if leb pager_max_pages n then fault else elim (s.pages n) [
    | none ↦ exited
    | some p ↦
        if env.seek_fails (n * page_size)
        then exited
        else if env.write_fails (n * page_size)
        then exited
        else ok tt (record s { file_descriptor = write_page s.file_descriptor n p })
  ]

unfoldable pub pager_get_unused_page_num : Cmd ℕ
pager_get_unused_page_num s = ok s.num_pages s
