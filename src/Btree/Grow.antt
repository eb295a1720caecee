-- ===== src/Btree/Grow.antt =====
-- `btree_node_internal_insert` and `btree_node_internal_split_and_insert` of src/btree.c.
pub mod Never
pub mod Place
pub mod Room
pub mod Child
use gnaro.Base.{
  ℕ, zero, suc, ◌+◌, ◌-◌, ◌/◌, ◌^◌, Bool, true, false, leb, ltb, ◌==◌, if◌then◌else◌, not,
}
use gnaro.Memory.{Cmd, pure, starved, ◌>>=◌, ◌>>◌, load32, store32, memcpy}
use gnaro.Pager.{Env, pager_get_page, pager_get_unused_page_num}
use gnaro.Btree.Layout.{internal_max_cells, internal_cell_size, internal_invalid_page_num}
use gnaro.Btree.Node.{u32, node_is_root, node_parent}
use gnaro.Btree.Internal.{
  internal_num_keys, internal_right_child, internal_cell, internal_key, internal_child,
  internal_init, internal_find_child, internal_update_key,
}
use gnaro.Btree.Root.{node_get_max_key, node_new_root}

-- `for (i = from; i > index; i--)`: the cells are moved one to the right; `rounds` is `from - index`.
unfoldable pub internal_make_room : (rounds node index : ℕ) → Cmd (Unit {0})
internal_make_room zero node index = pure tt
internal_make_room (suc rounds) node index = do
  memcpy node (internal_cell (index + suc rounds)) node (internal_cell (index + rounds))
      internal_cell_size
  internal_make_room rounds node index

-- What `btree_node_internal_split_and_insert` knows after the node has been divided.
pub record Halves : Type 0 where
  pub splitting_root : Bool
  pub parent : ℕ
  pub old_page_num : ℕ
  pub new_page_num : ℕ
  pub child : ℕ
  pub old_max : ℕ
  pub destination_page_num : ℕ

module _ (env : Env) where
  -- The part of `btree_node_internal_insert` behind its guards: a new right child, or a new cell.
  unfoldable pub internal_place :
      ℕ
      → (parent child_page_num child_max_key index original_num_keys right_child_page_num : ℕ)
      → Cmd (Unit {0})
  unfolding internal_make_room
  internal_place fuel parent child_page_num child_max_key index original_num_keys
        right_child_page_num =
      do
        right_child ← pager_get_page env right_child_page_num
        store32 parent internal_num_keys (u32 (original_num_keys + 1))
        right_max_key ← node_get_max_key env fuel right_child
        if ltb right_max_key child_max_key
            then (do
              at ← internal_child parent original_num_keys
              store32 parent at right_child_page_num
              right_max_key ← node_get_max_key env fuel right_child
              store32 parent (internal_key original_num_keys) right_max_key
              store32 parent internal_right_child child_page_num)
            else (do
              internal_make_room (original_num_keys - index) parent index
              at ← internal_child parent index
              store32 parent at child_page_num
              store32 parent (internal_key index) child_max_key)

  -- `btree_node_internal_insert`, over the function that splits a full node.
  unfoldable pub internal_insert_with :
      ((parent_page_num child_page_num : ℕ) → Cmd (Unit {0}))
      → ℕ
      → (parent_page_num child_page_num : ℕ) → Cmd (Unit {0})
  unfolding internal_place
  internal_insert_with split fuel parent_page_num child_page_num = do
    parent ← pager_get_page env parent_page_num
    child ← pager_get_page env child_page_num
    child_max_key ← node_get_max_key env fuel child
    index ← internal_find_child parent child_max_key
    original_num_keys ← load32 parent internal_num_keys
    store32 parent internal_num_keys (u32 (original_num_keys + 1))
    if leb internal_max_cells original_num_keys then split parent_page_num child_page_num else do
      right_child_page_num ← load32 parent internal_right_child
      if right_child_page_num == internal_invalid_page_num
          then store32 parent internal_right_child child_page_num
          else internal_place fuel parent child_page_num child_max_key index original_num_keys
              right_child_page_num

  -- `for (i = MAX - 1; i > MAX / 2; i--)`: `rounds` rounds are left, the next one is `i`.
  unfoldable pub move_loop :
      ((parent_page_num child_page_num : ℕ) → Cmd (Unit {0}))
      → (rounds i old_node new_page_num : ℕ) → Cmd (Unit {0})
  move_loop insert zero i old_node new_page_num = pure tt
  move_loop insert (suc rounds) i old_node new_page_num = do
    at ← internal_child old_node i
    cur_page_num ← load32 old_node at
    cur ← pager_get_page env cur_page_num
    insert new_page_num cur_page_num
    store32 cur node_parent new_page_num
    num_keys ← load32 old_node internal_num_keys
    store32 old_node internal_num_keys (u32 (num_keys + 2 ^ 32 - 1))
    move_loop insert rounds (i - 1) old_node new_page_num

  -- The node that becomes the parent of both halves, and the page of the left half.
  unfoldable pub split_parent :
      ℕ → (root_page_num old_page_num new_page_num : ℕ) → Bool → Cmd (ℕ × ℕ)
  split_parent fuel root_page_num old_page_num new_page_num true = do
    node_new_root env fuel root_page_num new_page_num
    parent ← pager_get_page env root_page_num
    at ← internal_child parent 0
    left ← load32 parent at
    old_node ← pager_get_page env left
    pure (parent, left)
  split_parent fuel root_page_num old_page_num new_page_num false = do
    parent_page_num ← load32 old_page_num node_parent
    parent ← pager_get_page env parent_page_num
    new_node ← pager_get_page env new_page_num
    internal_init new_node
    pure (parent, old_page_num)

  -- `btree_node_internal_split_and_insert` up to the choice of the destination; `insert` is
  -- `btree_node_internal_insert`.
  unfoldable pub split_halves :
      ((parent_page_num child_page_num : ℕ) → Cmd (Unit {0}))
      → ℕ
      → (root_page_num parent_page_num child_page_num : ℕ) → Cmd Halves
  unfolding split_parent move_loop
  split_halves insert fuel root_page_num parent_page_num child_page_num = do
    old_node ← pager_get_page env parent_page_num
    old_max ← node_get_max_key env fuel old_node
    child ← pager_get_page env child_page_num
    child_max ← node_get_max_key env fuel child
    new_page_num ← pager_get_unused_page_num
    splitting_root ← node_is_root old_node
    (parent, old_page_num) ←
        split_parent fuel root_page_num parent_page_num new_page_num splitting_root
    cur_page_num ← load32 old_page_num internal_right_child
    cur ← pager_get_page env cur_page_num
    insert new_page_num cur_page_num
    store32 cur node_parent new_page_num
    store32 old_page_num internal_right_child internal_invalid_page_num
    move_loop insert (internal_max_cells - 1 - internal_max_cells / 2) (internal_max_cells - 1)
        old_page_num new_page_num
    num_keys ← load32 old_page_num internal_num_keys
    at ← internal_child old_page_num (u32 (num_keys + 2 ^ 32 - 1))
    last ← load32 old_page_num at
    store32 old_page_num internal_right_child last
    num_keys ← load32 old_page_num internal_num_keys
    store32 old_page_num internal_num_keys (u32 (num_keys + 2 ^ 32 - 1))
    max_after_split ← node_get_max_key env fuel old_page_num
    pure (record {
      splitting_root = splitting_root;
      parent = parent;
      old_page_num = old_page_num;
      new_page_num = new_page_num;
      child = child;
      old_max = old_max;
      destination_page_num = if ltb child_max max_after_split then old_page_num else new_page_num;
    })

  -- What follows the insertion into the destination.
  unfoldable pub split_finish :
      ((parent_page_num child_page_num : ℕ) → Cmd (Unit {0})) → ℕ → Halves → Cmd (Unit {0})
  split_finish insert fuel h = do
    store32 h.child node_parent h.destination_page_num
    new_max ← node_get_max_key env fuel h.old_page_num
    internal_update_key h.parent h.old_max new_max
    if h.splitting_root then pure tt else do
      up ← load32 h.old_page_num node_parent
      insert up h.new_page_num
      up ← load32 h.old_page_num node_parent
      store32 h.new_page_num node_parent up

  -- To put the child into the destination, the function calls itself and not
  -- `btree_node_internal_insert`, as the source does.
  unfoldable pub internal_split_and_insert :
      ℕ → (root_page_num parent_page_num child_page_num : ℕ) → Cmd (Unit {0})
  internal_split_and_insert zero root_page_num parent_page_num child_page_num = starved
  internal_split_and_insert (suc fuel) root_page_num parent_page_num child_page_num = do
    h ←
        split_halves (internal_insert_with (internal_split_and_insert fuel root_page_num) fuel) fuel
          root_page_num parent_page_num child_page_num
    internal_split_and_insert fuel root_page_num h.destination_page_num child_page_num
    split_finish (internal_insert_with (internal_split_and_insert fuel root_page_num) fuel) fuel h

  unfoldable pub internal_insert :
      ℕ → (root_page_num parent_page_num child_page_num : ℕ) → Cmd (Unit {0})
  unfolding internal_insert_with internal_split_and_insert split_halves split_finish
  internal_insert fuel root_page_num =
      internal_insert_with (internal_split_and_insert fuel root_page_num) fuel
