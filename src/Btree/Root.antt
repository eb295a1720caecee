-- ===== src/Btree/Root.antt =====
-- `btree_node_get_max_key` and `btree_node_new_root` of src/btree.c.
pub mod MaxKey
pub mod Pages
pub mod NewRoot
pub mod Tree
use gnaro.Base.{ℕ, zero, suc, ◌+◌, ◌-◌, ◌^◌, true, false, ltb, if◌then◌else◌}
use gnaro.Memory.{Cmd, pure, starved, ◌>>=◌, ◌>>◌, page_size, load32, store32, memcpy}
use gnaro.Pager.{Env, pager_get_page, pager_get_unused_page_num}
use gnaro.Btree.Layout.{leaf, internal, unknown}
use gnaro.Btree.Node.{u32, node_get_type, node_set_root, node_parent}
use gnaro.Btree.Leaf.{leaf_key, leaf_num_cells}
use gnaro.Btree.Internal.{
  internal_num_keys, internal_right_child, internal_key, internal_child, internal_init,
}

module _ (env : Env) where
  -- One level of the tree for each unit of fuel. Whatever is no leaf is taken for an internal node.
  unfoldable pub node_get_max_key : ℕ → (node : ℕ) → Cmd ℕ
  node_get_max_key zero node = starved
  node_get_max_key (suc fuel) node = do
    type ← node_get_type node
    let below : Cmd ℕ = do
      right ← load32 node internal_right_child
      right_child ← pager_get_page env right
      node_get_max_key fuel right_child
    elim type [
      | leaf ↦ (do
        num_cells ← load32 node leaf_num_cells
        load32 node (leaf_key (u32 (num_cells + 2 ^ 32 - 1))))
      | internal ↦ below
      | unknown _ ↦ below
    ]

  -- `*btree_node_parent(child) = parent` for the child at offset `at` of `node`.
  unfoldable pub set_child_parent : (node at parent : ℕ) → Cmd (Unit {0})
  set_child_parent node at parent = do
    child_num ← load32 node at
    child ← pager_get_page env child_num
    store32 child node_parent parent

  -- The loop over the keys of the new left child: `rounds` rounds are left, and the next is `i`.
  unfoldable pub adopt_loop : ℕ → (i left_child left_child_page_num : ℕ) → Cmd (Unit {0})
  adopt_loop zero i left_child left_child_page_num = starved
  adopt_loop (suc fuel) i left_child left_child_page_num = do
    num_keys ← load32 left_child internal_num_keys
    if ltb i num_keys
        then (do
          at ← internal_child left_child i
          set_child_parent left_child at left_child_page_num
          adopt_loop fuel (u32 (i + 1)) left_child left_child_page_num)
        else pure tt

  -- The children of the new left child get it as their parent, if it is an internal node.
  unfoldable pub adopt_children : ℕ → (left_child left_child_page_num : ℕ) → Cmd (Unit {0})
  unfolding adopt_loop set_child_parent
  adopt_children fuel left_child left_child_page_num = do
    type ← node_get_type left_child
    elim type [
      | internal ↦ (do
        adopt_loop fuel 0 left_child left_child_page_num
        set_child_parent left_child internal_right_child left_child_page_num)
      | leaf ↦ pure tt
      | unknown _ ↦ pure tt
    ]

  -- If the root is internal, both children start as empty internal nodes.
  unfoldable pub init_children : (root right_child left_child : ℕ) → Cmd (Unit {0})
  init_children root right_child left_child = do
    type ← node_get_type root
    elim type [
      | internal ↦ internal_init right_child >> internal_init left_child
      | leaf ↦ pure tt
      | unknown _ ↦ pure tt
    ]

  unfoldable pub node_new_root : ℕ → (root_page_num right_child_page_num : ℕ) → Cmd (Unit {0})
  unfolding node_get_max_key adopt_children init_children
  node_new_root fuel root_page_num right_child_page_num = do
    root ← pager_get_page env root_page_num
    right_child ← pager_get_page env right_child_page_num
    left_child_page_num ← pager_get_unused_page_num
    left_child ← pager_get_page env left_child_page_num
    init_children root right_child left_child
    memcpy left_child 0 root 0 page_size
    node_set_root left_child false
    adopt_children fuel left_child left_child_page_num
    internal_init root
    node_set_root root true
    store32 root internal_num_keys 1
    at ← internal_child root 0
    store32 root at left_child_page_num
    left_child_max_key ← node_get_max_key fuel left_child
    store32 root (internal_key 0) left_child_max_key
    store32 root internal_right_child right_child_page_num
    store32 left_child node_parent root_page_num
    store32 right_child node_parent root_page_num
