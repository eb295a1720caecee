-- ===== src/Table/Open.antt =====
-- Opening an empty file gives an empty table of one leaf.
use gnaro.Base.{
  ℕ, ◌*◌, ◌/◌, ◌%◌, ◌^◌, ◌≤◌, ◌<◌, ◌≡◌, refl, ◌∙◌, inl, inr, some, none, arith, ◌==◌, true, false,
  List, [],
}
use gnaro.Memory.{File, Pager, ok, ◌>>◌, page_size, put}
use gnaro.Memory.Bytes.{Page}
use gnaro.Memory.Laws.{store8-put, update_self, update_ne, put_self}
use gnaro.Pager.{Env, pager_max_pages, pager_open, pager_get_page}
use gnaro.Pager.Cache.{get_page-Fetched}
use gnaro.Btree.Node.{node_set_root}
use gnaro.Btree.Leaf.{leaf_init, leaf_num_cells, leaf_next}
use gnaro.Btree.Leaf.Init.{
  leaf_page, with_byte, leaf_init-put, leaf_page_type, leaf_page_num_cells, leaf_page_next,
  with_byte_out, with_byte_at, word-with_byte,
}
use gnaro.Btree.Leaf.View.{Cell, cells, cells_from}
use gnaro.Database.{root_page_num, database_open, init_root}
use gnaro.Table.Single.{IsSingle}

-- The state and its root page show the table `xs`, and the cache and the file are within bounds.
pub record Shows (s : Pager) (xs : List Cell) : Type 0 where
  pub page : Page
  pub single : IsSingle s page
  pub content : cells page ≡ xs
  pub one : s.num_pages ≡ 1
  pub alone : s.pages 1 ≡ none
  pub used : 0 < s.num_pages
  pub few : s.num_pages ≤ pager_max_pages
  pub whole : s.file_descriptor.size % page_size ≡ 0
  pub short : s.file_descriptor.size ≤ pager_max_pages * page_size

-- A root page as `database_open` leaves it.
pub root_page : Page → Page
root_page p = with_byte (leaf_page p) 1 1

root_page-IsSingle :
    (p : Page) (s : Pager) → IsSingle (put root_page_num (root_page p) s) (root_page p)
unfolding root_page
root_page-IsSingle p s =
    let count =
      word-with_byte (leaf_page p) 1 1 leaf_num_cells (omega arith) ∙ leaf_page_num_cells p in
    record {
      cached = update_self s.pages root_page_num (some (root_page p));
      type = with_byte_out (leaf_page p) 1 1 0 (inl (omega arith)) ∙ leaf_page_type p;
      root_mark = with_byte_at (leaf_page p) 1 1;
      few = rw count (omega arith);
      ascending = rw count (λ i j a b. absurd (omega arith));
      next = word-with_byte (leaf_page p) 1 1 leaf_next (omega arith) ∙ leaf_page_next p;
    }

cells-root_page : (p : Page) → cells (root_page p) ≡ []
unfolding cells cells_from root_page
cells-root_page p =
    rw (word-with_byte (leaf_page p) 1 1 leaf_num_cells (omega arith), leaf_page_num_cells p)

init_leaf :
    (p : Page) (t : Pager)
    → t.pages root_page_num ≡ some p
    → (leaf_init root_page_num >> node_set_root root_page_num true) t
      ≡ ok tt (put root_page_num (root_page p) t)
unfolding root_page node_set_root with_byte
init_leaf p t here =
    let done : (leaf_init root_page_num >> node_set_root root_page_num true) (put root_page_num p t)
        ≡ ok tt (put root_page_num (root_page p) t) =
      rw
        (
          leaf_init-put root_page_num p t,
          store8-put root_page_num (leaf_page p) t 1 1 (omega arith),
        )
        refl in
    rw (put_self root_page_num p t here) at done

pub init_root-put :
    (env : Env) (s t : Pager) (p : Page)
    → s.num_pages ≡ 0
    → pager_get_page env root_page_num s ≡ ok root_page_num t
    → t.pages root_page_num ≡ some p
    → init_root env s ≡ ok tt (put root_page_num (root_page p) t)
unfolding init_root
init_root-put env s t p none_yet runs here =
    let empty : (s.num_pages == 0) ≡ true = ground arith in rw (empty, runs) (init_leaf p t here)

init_root-Shows :
    (env : Env) (s : Pager)
    → s.num_pages ≡ 0
    → ((k : ℕ) → s.pages k ≡ none)
    → s.file_descriptor.size ≡ 0
    → ((o : ℕ) → env.read_fails o ≡ false)
    → (t : Pager) × (init_root env s ≡ ok tt t) × Shows t []
init_root-Shows env s none_yet uncached empty reads =
    let (t, runs, f) = get_page-Fetched env root_page_num s (omega arith) reads in
    (
      put root_page_num (root_page f.page) t,
      init_root-put env s t f.page none_yet runs f.cached,
      record {
        page = root_page f.page;
        single = root_page-IsSingle f.page t;
        content = cells-root_page f.page;
        one = elim f.bounded [
          | inl same ↦ let more = f.counted (uncached root_page_num) in omega arith
          | inr one ↦ one
        ];
        alone =
            update_ne t.pages root_page_num 1 (some (root_page f.page)) (λ e. omega arith)
            ∙ f.others 1 (λ e. omega arith)
            ∙ uncached 1;
        used = f.counted (uncached root_page_num);
        few = elim f.bounded [ inl same ↦ omega arith | inr one ↦ omega arith ];
        whole = rw (f.file, empty) refl;
        short = rw (f.file, empty) (omega arith);
      },
    )

-- The state of a pager that has just been opened.
opened : File → Pager
opened fd = record {
  file_descriptor = fd;
  file_length = fd.size % 2 ^ 32;
  num_pages = fd.size / page_size % 2 ^ 32;
  pages = λ _. none;
}

pager_open-opened : (fd : File) → fd.size ≡ 0 → pager_open (some fd) ≡ some (opened fd)
unfolding pager_open opened
pager_open-opened fd empty =
    let whole : (fd.size % page_size == 0) ≡ true = ground arith in rw whole refl

pub database_open-some :
    (env : Env) (fd : File) (s t : Pager)
    → pager_open (some fd) ≡ some s
    → init_root env s ≡ ok tt t
    → database_open env (some fd) ≡ some (ok tt t)
unfolding database_open
database_open-some env fd s t opens runs = rw (opens, runs) refl

-- Opening an empty file, where reading does not fail, gives a table without rows, with its page
-- counted and the file still empty or within 100 whole pages.
pub database_open-Shows :
    (env : Env) (fd : File)
    → fd.size ≡ 0
    → ((o : ℕ) → env.read_fails o ≡ false)
    → (t : Pager) × (database_open env (some fd) ≡ some (ok tt t)) × Shows t []
unfolding opened
database_open-Shows env fd empty reads =
    let (t, runs, shows) = init_root-Shows env (opened fd) (omega arith) (λ k. refl) empty reads in
    (t, database_open-some env fd (opened fd) t (pager_open-opened fd empty) runs, shows)
