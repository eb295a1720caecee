-- ===== src/Btree/Leaf.antt =====
-- Leaf nodes of src/btree.c: accessors, `btree_node_leaf_init` and `btree_node_leaf_find`.
pub mod View
pub mod Find
pub mod Init
use gnaro.Base.{
  ℕ, zero, suc, ◌+◌, ◌*◌, ◌/◌, ◌%◌, ◌^◌, Bool, true, false, Option, none, some, ltb, ◌==◌,
  if◌then◌else◌,
}
use gnaro.Memory.{Cmd, pure, starved, ◌>>=◌, ◌>>◌, load32, store32}
use gnaro.Pager.{Env, pager_get_page}
use gnaro.Btree.Layout.{
  leaf, leaf_num_cells_offset, leaf_next_leaf_offset, leaf_header_size, leaf_cell_size,
  leaf_key_size,
}
use gnaro.Btree.Node.{u32, node_set_type, node_set_root}

-- `struct Cursor`. Its `database` is the state of the run; `end_of_table` is `none` as long as
-- nothing has been stored there.
pub record Cursor : Type 0 where
  pub page_num : ℕ
  pub cell_num : ℕ
  pub end_of_table : Option Bool

-- Offsets within a node's page.
unfoldable pub leaf_cell : (cell_num : ℕ) → ℕ
leaf_cell cell_num = leaf_header_size + u32 (cell_num * leaf_cell_size)

abbrev pub leaf_key : (cell_num : ℕ) → ℕ
leaf_key cell_num = leaf_cell cell_num

abbrev pub leaf_value : (cell_num : ℕ) → ℕ
leaf_value cell_num = leaf_cell cell_num + leaf_key_size

abbrev pub leaf_num_cells : ℕ
leaf_num_cells = leaf_num_cells_offset

abbrev pub leaf_next : ℕ
leaf_next = leaf_next_leaf_offset

unfoldable pub leaf_init : (node : ℕ) → Cmd (Unit {0})
leaf_init node = do
  node_set_type node leaf
  node_set_root node false
  store32 node leaf_num_cells 0
  store32 node leaf_next 0

-- The binary search of `btree_node_leaf_find`. Each round needs one unit of fuel.
unfoldable pub leaf_find_loop : ℕ → (node key min_index one_past_max_index : ℕ) → Cmd ℕ
leaf_find_loop zero node key min_index one_past_max_index = starved
leaf_find_loop (suc fuel) node key min_index one_past_max_index =
    if one_past_max_index == min_index then pure min_index else do
      let index = u32 (min_index + one_past_max_index) / 2
      key_at_index ← load32 node (leaf_key index)
      if key == key_at_index
          then pure index
          else if ltb key key_at_index
          then leaf_find_loop fuel node key min_index index
          else leaf_find_loop fuel node key (u32 (index + 1)) one_past_max_index

unfoldable pub leaf_find : Env → (key page_num : ℕ) → Cmd Cursor
unfolding leaf_find_loop leaf_cell
leaf_find env key page_num = do
  node ← pager_get_page env page_num
  num_cells ← load32 node leaf_num_cells
  cell_num ← leaf_find_loop (num_cells + 1) node key 0 num_cells
  pure (record { page_num = page_num; cell_num = cell_num; end_of_table = none })
