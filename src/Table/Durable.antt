-- ===== src/Table/Durable.antt =====
-- A session whose database is closed and opened again shows the same rows.
use gnaro.Base.{ℕ, ◌≤◌, ◌<◌, ◌≡◌, refl, ◌∙◌, arith, some, false, ◌==◌, List, [], length}
use gnaro.Memory.{File, Pager, ok}
use gnaro.Memory.Bytes.{Page}
use gnaro.Row.{Row}
use gnaro.Pager.{Env, pager_get_page, pager_open}
use gnaro.Pager.Cache.{get_page-cached}
use gnaro.Btree.Layout.{leaf_max_cells}
use gnaro.Btree.Leaf.View.{Cell}
use gnaro.Cursor.{cursor_find_key, cursor_start}
use gnaro.Statement.Execute.{success, statement_execute_select}
use gnaro.Database.{root_page_num, close_success, init_root, database_open, database_close}
use gnaro.Database.Reopen.{Delivers, database_close-Delivers}
use gnaro.Table.Same.{cells_same, IsSingle-same}
use gnaro.Table.Select.{rows, execute_select-rows}
use gnaro.Table.Open.{Shows, database_open-Shows, database_open-some}
use gnaro.Table.Session.{AllFit, answers, apply_inserts, execute_inserts, inserts-Shows}

-- Loading the root beforehand makes no difference to a select.
module _ (env : Env) (fuel : ℕ) (s t : Pager) {p : Page}
    (runs : pager_get_page env root_page_num s ≡ ok root_page_num t)
    (cached : t.pages root_page_num ≡ some p) where
  cursor_find_key_loaded :
      (key : ℕ)
      → cursor_find_key env fuel root_page_num key s ≡ cursor_find_key env fuel root_page_num key t
  unfolding cursor_find_key
  cursor_find_key_loaded key =
      rw (runs, get_page-cached env root_page_num t (omega arith) cached) refl

  select_loaded :
      statement_execute_select env fuel root_page_num s
      ≡ statement_execute_select env fuel root_page_num t
  unfolding statement_execute_select cursor_start
  select_loaded = rw (cursor_find_key_loaded 0) refl

-- A database that has pages is opened as it is.
database_open-used :
    (env : Env) (fd : File) (u : Pager)
    → pager_open (some fd) ≡ some u
    → 0 < u.num_pages
    → database_open env (some fd) ≡ some (ok tt u)
database_open-used env fd u opens used = database_open-some env fd u u opens there
  where
    there : init_root env u ≡ ok tt u
    there = let test : (u.num_pages == 0) ≡ false = ground arith in unfold init_root in rw test refl

-- A select on a database that delivers the root of a table prints that table.
delivered-select :
    (env : Env) (fuel : ℕ) (s u : Pager) (xs : List Cell) (v : Shows s xs)
    → Delivers env u root_page_num v.page
    → leaf_max_cells < fuel
    → (w : Pager) × (statement_execute_select env fuel root_page_num u ≡ ok (rows xs, success) w)
delivered-select env fuel s u xs v d enough =
    let single = IsSingle-same v.page d.page d.same s d.state v.single d.cached in
    let content = cells_same v.page d.page d.same v.single.few ∙ v.content in
    let printed = execute_select-rows env fuel d.state d.page single (omega (arith, single.few)) in
    (d.state, select_loaded env fuel u d.state d.runs d.cached ∙ (rw content at printed))

-- From an empty file, where no system call fails, with fuel of more than 13: after at most 13 inserts
-- of rows whose ids fit, closing the database succeeds, the file that it leaves is opened again, and a select then prints
-- the rows of the sorted reference.
pub session-durable :
    (env : Env) (fuel : ℕ) (fd : File) (rs : List Row)
    → fd.size ≡ 0
    → ((o : ℕ) → env.read_fails o ≡ false)
    → ((o : ℕ) → env.seek_fails o ≡ false)
    → ((o : ℕ) → env.write_fails o ≡ false)
    → AllFit rs
    → length rs ≤ leaf_max_cells
    → leaf_max_cells < fuel
    → (s t c u w : Pager) × (database_open env (some fd) ≡ some (ok tt s))
      × (execute_inserts env fuel rs s ≡ ok (answers rs []) t)
      × (database_close env false t ≡ ok close_success c)
      × (database_open env (some c.file_descriptor) ≡ some (ok tt u))
      × (statement_execute_select env fuel root_page_num u
          ≡ ok (rows (apply_inserts rs []), success) w)
session-durable env fuel fd rs empty reads seeks writes fits room enough =
    let (s, opens, v) = database_open-Shows env fd empty reads in
    let (t, runs, v') = inserts-Shows env fuel rs s [] v fits (omega arith) in
    let (c, u, closes, reopens, delivers) =
      database_close-Delivers env t seeks writes reads v'.few v'.whole v'.short in
    let d = delivers root_page_num v'.page v'.used v'.single.cached in
    let (w, selects) = delivered-select env fuel t u (apply_inserts rs []) v' d enough in
    (
      s,
      t,
      c,
      u,
      w,
      opens,
      runs,
      closes,
      database_open-used env c.file_descriptor u reopens (omega (arith, d.counted)),
      selects,
    )
