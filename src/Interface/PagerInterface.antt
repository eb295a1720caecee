-- ===== src/Interface/PagerInterface.antt =====
-- include/pager.h, which src/pager.c implements.
use gnaro.Base.{ℕ, ◌+◌, ◌*◌, ◌≡◌, refl, ◌<◌, false, Option, none, some, ◌⊎◌, ◌≤◌, Bool}
use gnaro.Memory.{page_size, File, Pager, Cmd, ok}
use gnaro.Memory.Bytes.{Page}
use gnaro.Pager.{
  Env, pager_max_pages, pager_open, pager_get_page, pager_flush, pager_get_unused_page_num,
}
use gnaro.Pager.Cache.{get_page-cached}
use gnaro.Pager.Steps.{
  AllCounted, get_page-Delivery, kept_by, delivered_by, from_disk_by, counted_by, flush-to_disk,
  flush-elsewhere, flush-pages, unused_free,
}

-- The operations; an open database file stands for its name.
pub record PagerInterface : Type 0 where
  pub open_pager : Option File → Option Pager
  pub get_page : (page_num : ℕ) → Cmd ℕ
  pub flush : (page_num : ℕ) → Cmd (Unit {0})
  pub get_unused_page_num : Cmd ℕ

-- src/pager.c.
abbrev pub pager : Env → PagerInterface
pager env = record {
  open_pager = pager_open;
  get_page = pager_get_page env;
  flush = pager_flush env;
  get_unused_page_num = pager_get_unused_page_num;
}

-- What the other components rely on, where `seek_fails` says which calls of `lseek` fail. A page that
-- has been delivered is cached; a cached page is delivered as it is; one that was not cached has the
-- bytes that the file has at its place. Flushing a page writes its bytes to its place in the file,
-- and leaves the bytes of other places and the cache as they are. The cached pages stay counted, so
-- the unused number is that of no cached page.
pub record IsLawful (seek_fails : ℕ → Bool) (P : PagerInterface) : Type 0 where
  pub delivered :
      (n m : ℕ) (s t : Pager)
      → P.get_page n s ≡ ok m t
      → (m ≡ n) × ((p : Page) × (t.pages n ≡ some p))
  pub cached :
      (n : ℕ) (s : Pager) (p : Page)
      → n < pager_max_pages
      → s.pages n ≡ some p
      → P.get_page n s ≡ ok n s
  pub from_disk :
      (n m a : ℕ) (s t : Pager) (p : Page)
      → P.get_page n s ≡ ok m t
      → s.pages n ≡ none
      → t.pages n ≡ some p
      → seek_fails (n * page_size) ≡ false
      → a < page_size
      → n * page_size + a < s.file_length
      → n * page_size + a < s.file_descriptor.size
      → p a ≡ s.file_descriptor.bytes (n * page_size + a)
  pub kept :
      (n m k : ℕ) (s t : Pager) (p : Page)
      → P.get_page n s ≡ ok m t
      → s.pages k ≡ some p
      → t.pages k ≡ some p
  pub flushed : (n : ℕ) (s t : Pager) → P.flush n s ≡ ok tt t → t.pages ≡ s.pages
  pub to_disk :
      (n a : ℕ) (s t : Pager) (p : Page)
      → P.flush n s ≡ ok tt t
      → s.pages n ≡ some p
      → a < page_size
      → (n * page_size + a < t.file_descriptor.size)
        × (t.file_descriptor.bytes (n * page_size + a) ≡ p a)
  pub elsewhere :
      (n a : ℕ) (s t : Pager)
      → P.flush n s ≡ ok tt t
      → a < s.file_descriptor.size
      → ((a < n * page_size) ⊎ ((n + 1) * page_size ≤ a))
      → t.file_descriptor.bytes a ≡ s.file_descriptor.bytes a
  pub counted : (n m : ℕ) (s t : Pager) → P.get_page n s ≡ ok m t → AllCounted s → AllCounted t
  pub unused :
      (n : ℕ) (s t : Pager)
      → P.get_unused_page_num s ≡ ok n t
      → AllCounted s
      → (t ≡ s) × (s.pages n ≡ none)

-- src/pager.c keeps what its header promises, whichever system calls fail: a call that returns has
-- the page cached, with the bytes of the file if it was read from there, and has changed no page that
-- was cached before; a flush that returns has written the page to its place in the file and nothing
-- else; and the unused number is free as long as the cached pages are counted, which they stay.
pub pager-IsLawful : (env : Env) → IsLawful env.seek_fails (pager env)
unfolding pager_get_unused_page_num
pager-IsLawful env = record {
  delivered = λ n m s t runs. delivered_by env n m s t (get_page-Delivery env n m s t runs);
  cached = λ n s p small there. get_page-cached env n s small there;
  from_disk = λ n m a s t p runs. from_disk_by env n m s t a p (get_page-Delivery env n m s t runs);
  kept = λ n m k s t p runs. kept_by env n m s t k p (get_page-Delivery env n m s t runs);
  flushed = flush-pages env;
  to_disk = flush-to_disk env;
  elsewhere = flush-elsewhere env;
  counted = λ n m s t runs. counted_by env n m s t (get_page-Delivery env n m s t runs);
  unused = λ n s t runs all. (cc, unused_free n s (s.pages n) refl (cc) all);
}
