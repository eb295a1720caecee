-- ===== src/Meta.antt =====
-- src/meta.c: the commands that start with a dot.
use gnaro.Base.{ℕ, List, [], if◌then◌else◌}
use gnaro.Memory.{Cmd, pure, ◌>>=◌}
use gnaro.Pager.{Env}
use gnaro.Btree.Print.{Line, btree_print}
use gnaro.Statement.Text.{equals}
use gnaro.Statement.Prepare.{bytes}

pub data MetaCommandResult : Type 0 where
  success exit unrecognized : MetaCommandResult

-- The lines printed and the result.
unfoldable pub meta_execute_command :
    Env → ℕ → (command : List ℕ) → Cmd (List Line × MetaCommandResult)
meta_execute_command env fuel command =
    if equals command (bytes ".exit")
    then pure ([], exit)
    else if equals command (bytes ".btree")
    then (do lines ← btree_print env fuel 0 0; pure (lines, success))
    else pure ([], unrecognized)
