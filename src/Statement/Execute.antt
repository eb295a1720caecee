-- ===== src/Statement/Execute.antt =====
-- `statement_execute` and its two cases in src/statement.c.
use gnaro.Base.{ℕ, zero, suc, true, false, none, some, List, [], ◌∷◌, ltb, ◌==◌, if◌then◌else◌}
use gnaro.Memory.{Cmd, pure, starved, fault, ◌>>=◌, ◌>>◌, load32}
use gnaro.Row.{Row, row_deserialize}
use gnaro.Pager.{Env, pager_get_page}
use gnaro.Btree.Leaf.{Cursor, leaf_num_cells, leaf_key}
use gnaro.Btree.Insert.{leaf_insert}
use gnaro.Cursor.{cursor_find_key, cursor_start, cursor_advance, cursor_value}
use gnaro.Statement.Prepare.{Statement, insert, select}

pub data StatementExecuteResult : Type 0 where
  success table_full duplicate_key : StatementExecuteResult

module _ (env : Env) where
  unfoldable pub statement_execute_insert :
      ℕ → (root_page_num : ℕ) → Statement → Cmd StatementExecuteResult
  statement_execute_insert fuel root_page_num statement = do
    node ← pager_get_page env root_page_num
    num_cells ← load32 node leaf_num_cells
    let row_to_insert = statement.row_to_insert
    let key_to_insert = row_to_insert.id
    cursor ← cursor_find_key env fuel root_page_num key_to_insert
    let store : Cmd StatementExecuteResult =
        leaf_insert env fuel root_page_num cursor row_to_insert.id row_to_insert >> pure success
    if ltb cursor.cell_num num_cells
        then (do
          key_at_index ← load32 node (leaf_key cursor.cell_num)
          if key_at_index == key_to_insert then pure duplicate_key else store)
        else store

  -- The rows that the loop prints; one round for each unit of fuel.
  unfoldable pub select_loop : ℕ → Cursor → Cmd (List Row)
  select_loop zero cursor = starved
  select_loop (suc fuel) cursor = elim (cursor.end_of_table) [
    | none ↦ λ _. fault
    | some true ↦ pure []
    | some false ↦ (do
      (page, offset) ← cursor_value env cursor
      row ← row_deserialize page offset
      cursor' ← cursor_advance env cursor
      rows ← select_loop fuel cursor'
      pure (row ∷ rows))
  ]

  -- The rows printed, in order, and the result.
  unfoldable pub statement_execute_select :
      ℕ → (root_page_num : ℕ) → Cmd (List Row × StatementExecuteResult)
  unfolding select_loop
  statement_execute_select fuel root_page_num = do
    cursor ← cursor_start env fuel root_page_num
    rows ← select_loop fuel cursor
    pure (rows, success)

  unfoldable pub statement_execute :
      ℕ → (root_page_num : ℕ) → Statement → Cmd (List Row × StatementExecuteResult)
  unfolding statement_execute_insert statement_execute_select
  statement_execute fuel root_page_num statement = elim (statement.type) [
    | insert ↦ (do
      result ← statement_execute_insert fuel root_page_num statement
      pure ([], result))
    | select ↦ statement_execute_select fuel root_page_num
  ]
