-- ===== src/Btree/Insert.antt =====
-- `btree_node_leaf_insert` and `btree_node_leaf_split_and_insert` of src/btree.c.
pub mod Cells
pub mod Listing
pub mod Write
pub mod Divide
pub mod Rounds
pub mod SplitCells
pub mod Split
pub mod SplitLeaf
pub mod Sorted
pub mod AllKeys
pub mod Ascend
pub mod RootSplit
use gnaro.Base.{
  ℕ, zero, suc, ◌+◌, ◌-◌, ◌%◌, ◌^◌, ◌||◌, Bool, true, false, leb, ltb, ◌==◌, if◌then◌else◌,
}
use gnaro.Memory.{Cmd, pure, ◌>>=◌, ◌>>◌, load32, store32, memcpy}
use gnaro.Row.{Row, row_serialize}
use gnaro.Pager.{Env, pager_get_page, pager_get_unused_page_num}
use gnaro.Btree.Layout.{
  leaf_max_cells, leaf_cell_size, leaf_left_split_count, leaf_right_split_count,
}
use gnaro.Btree.Node.{u32, node_is_root, node_parent}
use gnaro.Btree.Leaf.{Cursor, leaf_cell, leaf_key, leaf_value, leaf_num_cells, leaf_next, leaf_init}
use gnaro.Btree.Internal.{internal_update_key}
use gnaro.Btree.Root.{node_get_max_key, node_new_root}
use gnaro.Btree.Grow.{internal_insert}

-- `for (i = num_cells; i > cell_num; i--)`: the cells are moved one to the right; `rounds` is
-- `num_cells - cell_num`.
unfoldable pub leaf_make_room : (rounds node cell_num : ℕ) → Cmd (Unit {0})
leaf_make_room zero node cell_num = pure tt
leaf_make_room (suc rounds) node cell_num = do
  memcpy node (leaf_cell (cell_num + suc rounds)) node (leaf_cell (cell_num + rounds))
      leaf_cell_size
  leaf_make_room rounds node cell_num

-- Round `i` of the loop that divides the cells. The comparison with `(int32_t)cell_num` takes a number
-- from 2 ^ 31 on for a negative one.
unfoldable pub divide_round : (i old_node new_node cell_num key : ℕ) → Row → Cmd (Unit {0})
divide_round i old_node new_node cell_num key value =
    let destination_node = if leb leaf_left_split_count i then new_node else old_node in
    let index_within_node = i % leaf_left_split_count in
    let destination = leaf_cell index_within_node in
    if i == cell_num
    then (do
      row_serialize value destination_node (leaf_value index_within_node)
      store32 destination_node (leaf_key index_within_node) key)
    else if leb (2 ^ 31) cell_num || ltb cell_num i
    then memcpy destination_node destination old_node (leaf_cell (u32 (i + 2 ^ 32 - 1)))
        leaf_cell_size
    else memcpy destination_node destination old_node (leaf_cell i) leaf_cell_size

-- With `rounds` rounds left, the next one is `i = rounds - 1`.
unfoldable pub divide_loop : (rounds old_node new_node cell_num key : ℕ) → Row → Cmd (Unit {0})
unfolding divide_round
divide_loop zero old_node new_node cell_num key value = pure tt
divide_loop (suc i) old_node new_node cell_num key value = do
  divide_round i old_node new_node cell_num key value
  divide_loop i old_node new_node cell_num key value

module _ (env : Env) where
  -- `btree_node_leaf_split_and_insert` up to the counters of the two nodes; the result is the new
  -- page's number and the largest key that the old node had.
  unfoldable pub leaf_split : ℕ → Cursor → (key : ℕ) → Row → Cmd (ℕ × ℕ)
  unfolding divide_loop
  leaf_split fuel cursor key value = do
    old_node ← pager_get_page env cursor.page_num
    old_max ← node_get_max_key env fuel old_node
    new_page_num ← pager_get_unused_page_num
    new_node ← pager_get_page env new_page_num
    leaf_init new_node
    old_parent ← load32 old_node node_parent
    store32 new_node node_parent old_parent
    old_next ← load32 old_node leaf_next
    store32 new_node leaf_next old_next
    store32 old_node leaf_next new_page_num
    divide_loop (leaf_max_cells + 1) old_node new_node cursor.cell_num key value
    store32 old_node leaf_num_cells leaf_left_split_count
    store32 new_node leaf_num_cells leaf_right_split_count
    pure (new_page_num, old_max)

  -- The rest of it: a new root over the two nodes, or the new one's place in the parent.
  unfoldable pub leaf_split_and_insert :
      ℕ → (root_page_num : ℕ) → Cursor → (key : ℕ) → Row → Cmd (Unit {0})
  unfolding leaf_split
  leaf_split_and_insert fuel root_page_num cursor key value = do
    (new_page_num, old_max) ← leaf_split fuel cursor key value
    let old_node = cursor.page_num
    is_root ← node_is_root old_node
    if is_root then node_new_root env fuel root_page_num new_page_num else do
      parent_page_num ← load32 old_node node_parent
      new_max ← node_get_max_key env fuel old_node
      parent ← pager_get_page env parent_page_num
      internal_update_key parent old_max new_max
      internal_insert env fuel root_page_num parent_page_num new_page_num

  unfoldable pub leaf_insert : ℕ → (root_page_num : ℕ) → Cursor → (key : ℕ) → Row → Cmd (Unit {0})
  unfolding leaf_make_room leaf_split_and_insert
  leaf_insert fuel root_page_num cursor key value = do
    node ← pager_get_page env cursor.page_num
    num_cells ← load32 node leaf_num_cells
    if leb leaf_max_cells num_cells
        then leaf_split_and_insert fuel root_page_num cursor key value
        else (do
          leaf_make_room (num_cells - cursor.cell_num) node cursor.cell_num
          old_num_cells ← load32 node leaf_num_cells
          store32 node leaf_num_cells (u32 (old_num_cells + 1))
          store32 node (leaf_key cursor.cell_num) key
          row_serialize value node (leaf_value cursor.cell_num))
