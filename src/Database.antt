-- ===== src/Database.antt =====
-- src/database.c: opening and closing a database.
pub mod Flushed
pub mod Close
pub mod Reopen
pub mod Written
pub mod Failing
use gnaro.Base.{ℕ, zero, suc, ◌+◌, Bool, true, Option, none, some, leb, ◌==◌, if◌then◌else◌}
use gnaro.Memory.{File, Pager, Run, ok, fault, Cmd, pure, ◌>>=◌, ◌>>◌, update}
use gnaro.Pager.{Env, pager_max_pages, pager_open, pager_get_page, pager_flush}
use gnaro.Btree.Leaf.{leaf_init}
use gnaro.Btree.Node.{node_set_root}

pub data DatabaseResult : Type 0 where
  close_success close_fail : DatabaseResult

-- `database->root_page_num` is set here and never again.
abbrev pub root_page_num : ℕ
root_page_num = 0

module _ (env : Env) where
  -- A database file without pages gets its root, an empty leaf.
  unfoldable pub init_root : Cmd (Unit {0})
  init_root s =
      if s.num_pages == 0
      then (do
        root_node ← pager_get_page env root_page_num
        leaf_init root_node
        node_set_root root_node true)
          s
      else ok tt s

  unfoldable pub open_with : Option Pager → Option (Run (Unit {0}))
  unfolding init_root
  open_with none = none
  open_with (some s) = some (init_root s)

  -- `none` is the `NULL` of a file that cannot be opened.
  unfoldable pub database_open : Option File → Option (Run (Unit {0}))
  unfolding open_with
  database_open fd = open_with (pager_open fd)

  -- `pager->pages[i] = NULL`
  abbrev pub drop_page : ℕ → Cmd (Unit {0})
  drop_page i s = ok tt (record s { pages = update s.pages i none })

  -- One round of the flushing loop. The array ends at `pager_max_pages`.
  unfoldable pub flush_page : ℕ → Cmd (Unit {0})
  flush_page i s =
      if leb pager_max_pages i
      then fault
      else elim (s.pages i) [ none ↦ ok tt s | some p ↦ (pager_flush env i >> drop_page i) s ]

  -- `rounds` rounds are left, the next one is `i`.
  unfoldable pub flush_loop : (rounds i : ℕ) → Cmd (Unit {0})
  unfolding flush_page
  flush_loop zero i = pure tt
  flush_loop (suc rounds) i = flush_page i >> flush_loop rounds (i + 1)

  -- `close_fails` is what `close` answers. What is left of the cache is freed only if it succeeds.
  unfoldable pub database_close : (close_fails : Bool) → Cmd DatabaseResult
  unfolding flush_loop
  database_close close_fails s =
      (flush_loop s.num_pages 0
          >> (if close_fails
              then pure close_fail
              else (λ s. ok close_success (record s { pages = λ _. none }))))
        s
