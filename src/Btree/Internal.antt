-- ===== src/Btree/Internal.antt =====
-- Internal nodes of src/btree.c: accessors, `btree_node_internal_init`, the search for a child, and
-- `btree_node_internal_find`.
pub mod View
pub mod Find
use gnaro.Base.{
  ℕ, zero, suc, ◌+◌, ◌*◌, ◌/◌, ◌%◌, ◌^◌, Bool, true, false, leb, ltb, ◌==◌, if◌then◌else◌,
}
use gnaro.Memory.{Cmd, Pager, Run, pure, exit, starved, fault, ◌>>=◌, ◌>>◌, load32, store32}
use gnaro.Pager.{Env, pager_get_page}
use gnaro.Btree.Layout.{
  NodeType, leaf, internal, unknown, internal_num_keys_offset, internal_right_child_offset,
  internal_header_size, internal_cell_size, internal_child_size, internal_invalid_page_num,
}
use gnaro.Btree.Node.{u32, node_get_type, node_set_type, node_set_root}
use gnaro.Btree.Leaf.{Cursor, leaf_find}

abbrev pub internal_num_keys : ℕ
internal_num_keys = internal_num_keys_offset

abbrev pub internal_right_child : ℕ
internal_right_child = internal_right_child_offset

unfoldable pub internal_cell : (cell_num : ℕ) → ℕ
internal_cell cell_num = internal_header_size + u32 (cell_num * internal_cell_size)

abbrev pub internal_key : (key_num : ℕ) → ℕ
internal_key key_num = internal_cell key_num + internal_child_size

-- The offset of a child's page number. The program exits if there is no such child, or if what is
-- stored there is no page number.
unfoldable pub internal_child : (node child_num : ℕ) → Cmd ℕ
unfolding internal_cell
internal_child node child_num = do
  num_keys ← load32 node internal_num_keys
  if ltb num_keys child_num
      then exit
      else if child_num == num_keys
      then (do
        right_child ← load32 node internal_right_child
        if right_child == internal_invalid_page_num then exit else pure internal_right_child)
      else (do
        child ← load32 node (internal_cell child_num)
        if child == internal_invalid_page_num then exit else pure (internal_cell child_num))

unfoldable pub internal_init : (node : ℕ) → Cmd (Unit {0})
internal_init node = do
  node_set_type node internal
  node_set_root node false
  store32 node internal_num_keys 0
  store32 node internal_right_child internal_invalid_page_num

-- The binary search of `btree_node_internal_find_child`.
unfoldable pub find_child_loop : ℕ → (node key min_index max_index : ℕ) → Cmd ℕ
find_child_loop zero node key min_index max_index = starved
find_child_loop (suc fuel) node key min_index max_index =
    if min_index == max_index then pure min_index else do
      let index = u32 (min_index + max_index) / 2
      key_to_right ← load32 node (internal_key index)
      if leb key key_to_right
          then find_child_loop fuel node key min_index index
          else find_child_loop fuel node key (u32 (index + 1)) max_index

unfoldable pub internal_find_child : (node key : ℕ) → Cmd ℕ
unfolding find_child_loop internal_cell
internal_find_child node key = do
  num_keys ← load32 node internal_num_keys
  find_child_loop (num_keys + 1) node key 0 num_keys

unfoldable pub internal_update_key : (node old_key new_key : ℕ) → Cmd (Unit {0})
unfolding internal_find_child
internal_update_key node old_key new_key = do
  old_child_index ← internal_find_child node old_key
  store32 node (internal_key old_child_index) new_key

-- The descent to a leaf, one level for each unit of fuel. A child of neither type falls out of the
-- `switch` and off the end of the function.
unfoldable pub internal_find : Env → ℕ → (key page_num : ℕ) → Cmd Cursor
internal_find env zero key page_num = starved
internal_find env (suc fuel) key page_num = do
  node ← pager_get_page env page_num
  child_index ← internal_find_child node key
  at ← internal_child node child_index
  child_num ← load32 node at
  child ← pager_get_page env child_num
  type ← node_get_type child
  elim type [
    | leaf ↦ leaf_find env key child_num
    | internal ↦ internal_find env fuel key child_num
    | unknown _ ↦ λ _. fault
  ]
