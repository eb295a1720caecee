-- ===== src/Table/Opening.antt =====
-- How `database_open` of src/database.c ends on a file of whole pages.
use gnaro.Base.{
  ◌*◌, ◌%◌, ◌/◌, ◌^◌, ◌≡◌, refl, arith, none, some, true, ◌⊎◌, inl, inr, ◌==◌, Bool-cases, ==→eq,
}
use gnaro.Memory.{File, Pager, ok, exited, page_size}
use gnaro.Pager.{Env, pager_open, file_offset}
use gnaro.Pager.Cache.{
  GetPageEnd, delivered, unreadable, at_limit, beyond_limit, get_page-GetPageEnd,
}
use gnaro.Database.{root_page_num, init_root, database_open}
use gnaro.Table.Open.{init_root-put}

-- The file has no page, and reading page 0 fails, at the place where the file then stands.
abbrev pub RootUnreadable : Env → File → Type 0
RootUnreadable env f =
    (f.size / page_size % 2 ^ 32 ≡ 0)
    × (env.read_fails (file_offset env (root_page_num * page_size)) ≡ true)

abbrev RootFails : Env → Pager → Type 0
RootFails env s =
    (s.num_pages ≡ 0) × (env.read_fails (file_offset env (root_page_num * page_size)) ≡ true)

root_ends :
    (env : Env) (s : Pager)
    → s.num_pages ≡ 0
    → GetPageEnd env root_page_num s
    → ((t : Pager) × (init_root env s ≡ ok tt t)) ⊎ (RootFails env s × (init_root env s ≡ exited))
root_ends env s none_yet (delivered small t runs f) =
    inl (_, init_root-put env s t f.page none_yet runs f.cached)
root_ends env s none_yet (unreadable small miss within fails runs) = inr (
  (none_yet, fails),
  unfold init_root in let empty : (s.num_pages == 0) ≡ true = ground arith in rw (empty, runs) refl,
)
root_ends env s none_yet (at_limit limit runs) = absurd (omega arith)
root_ends env s none_yet (beyond_limit limit runs) = absurd (omega arith)

init_root-ends :
    (env : Env) (s : Pager)
    → ((t : Pager) × (init_root env s ≡ ok tt t)) ⊎ (RootFails env s × (init_root env s ≡ exited))
init_root-ends env s = elim (Bool-cases (s.num_pages == 0)) [
  | inl empty ↦
      root_ends env s (==→eq s.num_pages 0 empty) (get_page-GetPageEnd env root_page_num s)
  | inr used ↦ inl (s, unfold init_root in rw used refl)
]

-- A file of whole pages is opened, or its root cannot be read and the program exits.
pub database_open-ends :
    (env : Env) (f : File)
    → f.size % page_size ≡ 0
    → ((t : Pager) × (database_open env (some f) ≡ some (ok tt t)))
      ⊎ (RootUnreadable env f × (database_open env (some f) ≡ some exited))
unfolding database_open pager_open
database_open-ends env f whole =
    let test : (f.size % page_size == 0) ≡ true = ground arith in
    elim (init_root-ends env (record {
      file_descriptor = f;
      file_length = f.size % 2 ^ 32;
      num_pages = f.size / page_size % 2 ^ 32;
      pages = λ _. none;
    })) [
      | inl (t, runs) ↦ inl (t, rw (test, runs) refl)
      | inr (fails, runs) ↦ inr (fails, rw (test, runs) refl)
    ]
