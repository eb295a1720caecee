-- ===== src/Btree/Print.antt =====
-- `btree_print` of src/btree.c, the lines that it prints in place of the text on the terminal.
use gnaro.Base.{ℕ, zero, suc, ◌+◌, List, [], ◌∷◌, ◌++◌, ◌==◌, if◌then◌else◌}
use gnaro.Memory.{Cmd, pure, starved, ◌>>=◌, load32}
use gnaro.Pager.{Env, pager_get_page}
use gnaro.Btree.Layout.{leaf, internal, unknown}
use gnaro.Btree.Node.{u32, node_get_type}
use gnaro.Btree.Leaf.{leaf_cell, leaf_num_cells, leaf_key}
use gnaro.Btree.Internal.{
  internal_cell, internal_num_keys, internal_key, internal_right_child, internal_child,
}

-- A printed line: the level to which it is indented, and the number in it.
pub data Line : Type 0 where
  leaf_line internal_line leaf_key_line internal_key_line : (indent_level number : ℕ) → Line

-- The keys of a leaf from cell `i` on; `rounds` cells are left.
unfoldable pub print_leaf_keys : (rounds i node indent_level : ℕ) → Cmd (List Line)
unfolding leaf_cell
print_leaf_keys zero i node indent_level = pure []
print_leaf_keys (suc rounds) i node indent_level = do
  key ← load32 node (leaf_key i)
  lines ← print_leaf_keys rounds (i + 1) node indent_level
  pure (leaf_key_line (u32 (indent_level + 1)) key ∷ lines)

-- The children and the keys of an internal node from `i` on; `print` prints a child.
unfoldable pub print_children :
    (print : ℕ → Cmd (List Line)) → (rounds i node indent_level : ℕ) → Cmd (List Line)
unfolding internal_cell
print_children print zero i node indent_level = pure []
print_children print (suc rounds) i node indent_level = do
  at ← internal_child node i
  child ← load32 node at
  child_lines ← print child
  key ← load32 node (internal_key i)
  lines ← print_children print rounds (i + 1) node indent_level
  pure (child_lines ++ internal_key_line (u32 (indent_level + 1)) key ∷ lines)

-- An internal node; `print` prints a child. A node without keys shows no child.
unfoldable pub print_internal :
    (print : ℕ → Cmd (List Line)) → (node indent_level : ℕ) → Cmd (List Line)
print_internal print node indent_level = do
  num_keys ← load32 node internal_num_keys
  if num_keys == 0 then pure (internal_line indent_level num_keys ∷ []) else do
    lines ← print_children print num_keys 0 node indent_level
    right_child ← load32 node internal_right_child
    last_lines ← print right_child
    pure (internal_line indent_level num_keys ∷ (lines ++ last_lines))

-- One level of the tree for each unit of fuel. A node of neither type prints nothing.
unfoldable pub btree_print : Env → ℕ → (page_num indent_level : ℕ) → Cmd (List Line)
btree_print env zero page_num indent_level = starved
btree_print env (suc fuel) page_num indent_level = do
  node ← pager_get_page env page_num
  type ← node_get_type node
  elim type [
    | leaf ↦ (do
      num_keys ← load32 node leaf_num_cells
      lines ← print_leaf_keys num_keys 0 node indent_level
      pure (leaf_line indent_level num_keys ∷ lines))
    | internal ↦
        print_internal (λ child. btree_print env fuel child (u32 (indent_level + 1))) node
          indent_level
    | unknown _ ↦ pure []
  ]
