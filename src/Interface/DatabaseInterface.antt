-- ===== src/Interface/DatabaseInterface.antt =====
-- include/database.h, which src/database.c implements.
use gnaro.Base.{ℕ, Bool, Option}
use gnaro.Memory.{File, Run, Cmd}
use gnaro.Pager.{Env}
use gnaro.Database.{DatabaseResult, root_page_num, database_open, database_close}

-- `Database`; its `pager` is the state of the commands.
pub record Database : Type 0 where
  pub root_page_num : ℕ

-- Opening leaves the state with an open database, or fails. `close_fails` is what the system answers
-- to `close`.
pub record DatabaseInterface : Type 0 where
  pub open_database : Option File → Option (Run (Unit {0}))
  pub database : Database
  pub close : (close_fails : Bool) → Cmd DatabaseResult

-- src/database.c.
abbrev pub database_functions : Env → DatabaseInterface
database_functions env = record {
  open_database = database_open env;
  database = record { root_page_num = root_page_num };
  close = database_close env;
}
