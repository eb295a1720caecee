-- ===== src/Cursor.antt =====
-- src/cursor.c: positions in the table.
pub mod Descent
use gnaro.Base.{ℕ, ◌+◌, true, some, leb, ◌==◌, if◌then◌else◌}
use gnaro.Memory.{Cmd, pure, ◌>>=◌, load32}
use gnaro.Pager.{Env, pager_get_page}
use gnaro.Btree.Layout.{leaf, internal, unknown}
use gnaro.Btree.Node.{u32, node_get_type}
use gnaro.Btree.Leaf.{Cursor, leaf_num_cells, leaf_next, leaf_value, leaf_find, leaf_cell}
use gnaro.Btree.Internal.{internal_find}

module _ (env : Env) where
  unfoldable pub cursor_find_key : ℕ → (root_page_num key : ℕ) → Cmd Cursor
  cursor_find_key fuel root_page_num key = do
    root_node ← pager_get_page env root_page_num
    type ← node_get_type root_node
    elim type [
      | leaf ↦ leaf_find env key root_page_num
      | internal ↦ internal_find env fuel key root_page_num
      | unknown _ ↦ internal_find env fuel key root_page_num
    ]

  unfoldable pub cursor_start : ℕ → (root_page_num : ℕ) → Cmd Cursor
  unfolding cursor_find_key
  cursor_start fuel root_page_num = do
    cursor ← cursor_find_key fuel root_page_num 0
    node ← pager_get_page env cursor.page_num
    num_cells ← load32 node leaf_num_cells
    pure (record cursor { end_of_table = some (num_cells == 0) })

  unfoldable pub cursor_advance : Cursor → Cmd Cursor
  cursor_advance cursor = do
    node ← pager_get_page env cursor.page_num
    let cell_num = u32 (cursor.cell_num + 1)
    num_cells ← load32 node leaf_num_cells
    if leb num_cells cell_num
        then (do
          next_page_num ← load32 node leaf_next
          if next_page_num == 0
              then pure (record cursor { cell_num = cell_num; end_of_table = some true })
              else pure (record cursor { page_num = next_page_num; cell_num = 0 }))
        else pure (record cursor { cell_num = cell_num })

  -- The page and the offset of the row under the cursor.
  unfoldable pub cursor_value : Cursor → Cmd (ℕ × ℕ)
  unfolding leaf_cell
  cursor_value cursor = do
    page ← pager_get_page env cursor.page_num
    pure (page, leaf_value cursor.cell_num)
