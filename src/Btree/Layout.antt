-- ===== src/Btree/Layout.antt =====
-- include/btree.h: where the parts of a node lie in its page.
use gnaro.Base.{ℕ, ◌+◌, ◌-◌, ◌/◌, ◌^◌}
use gnaro.Memory.{page_size}
use gnaro.Row.{row_size}

-- The kinds of node, as the byte at the front of a page encodes them. `unknown` is a byte that is
-- neither.
pub data NodeType : Type 0 where
  internal leaf : NodeType
  unknown : ℕ → NodeType

abbrev pub node_type_size : ℕ
node_type_size = 1

abbrev pub node_type_offset : ℕ
node_type_offset = 0

abbrev pub node_is_root_size : ℕ
node_is_root_size = 1

abbrev pub node_is_root_offset : ℕ
node_is_root_offset = node_type_size

abbrev pub node_parent_pointer_size : ℕ
node_parent_pointer_size = 4

abbrev pub node_parent_pointer_offset : ℕ
node_parent_pointer_offset = node_is_root_offset + node_is_root_size

abbrev pub node_common_header_size : ℕ
node_common_header_size = node_type_size + node_is_root_size + node_parent_pointer_size

-- Leaf nodes.
abbrev pub leaf_num_cells_size : ℕ
leaf_num_cells_size = 4

abbrev pub leaf_num_cells_offset : ℕ
leaf_num_cells_offset = node_common_header_size

abbrev pub leaf_next_leaf_size : ℕ
leaf_next_leaf_size = 4

abbrev pub leaf_next_leaf_offset : ℕ
leaf_next_leaf_offset = leaf_num_cells_offset + leaf_num_cells_size

abbrev pub leaf_header_size : ℕ
leaf_header_size = node_common_header_size + leaf_num_cells_size + leaf_next_leaf_size

abbrev pub leaf_key_size : ℕ
leaf_key_size = 4

abbrev pub leaf_key_offset : ℕ
leaf_key_offset = 0

abbrev pub leaf_value_size : ℕ
leaf_value_size = row_size

abbrev pub leaf_value_offset : ℕ
leaf_value_offset = leaf_key_offset + leaf_key_size

abbrev pub leaf_cell_size : ℕ
leaf_cell_size = leaf_key_size + leaf_value_size

abbrev pub leaf_space_for_cells : ℕ
leaf_space_for_cells = page_size - leaf_header_size

abbrev pub leaf_max_cells : ℕ
leaf_max_cells = leaf_space_for_cells / leaf_cell_size

abbrev pub leaf_right_split_count : ℕ
leaf_right_split_count = (leaf_max_cells + 1) / 2

abbrev pub leaf_left_split_count : ℕ
leaf_left_split_count = leaf_max_cells + 1 - leaf_right_split_count

-- Internal nodes.
abbrev pub internal_num_keys_size : ℕ
internal_num_keys_size = 4

abbrev pub internal_num_keys_offset : ℕ
internal_num_keys_offset = node_common_header_size

abbrev pub internal_right_child_size : ℕ
internal_right_child_size = 4

abbrev pub internal_right_child_offset : ℕ
internal_right_child_offset = internal_num_keys_offset + internal_num_keys_size

abbrev pub internal_header_size : ℕ
internal_header_size = node_common_header_size + internal_num_keys_size + internal_right_child_size

abbrev pub internal_key_size : ℕ
internal_key_size = 4

abbrev pub internal_child_size : ℕ
internal_child_size = 4

abbrev pub internal_cell_size : ℕ
internal_cell_size = internal_child_size + internal_key_size

abbrev pub internal_max_cells : ℕ
internal_max_cells = 3

abbrev pub internal_invalid_page_num : ℕ
internal_invalid_page_num = 2 ^ 32 - 1
