-- ===== src/Btree/Blocks.antt =====
-- The blocks that include/btree.h lays out: the fields of the headers and cells, in order.
use gnaro.Base.{ℕ, ◌+◌, ◌≤◌, ◌<◌, ◌≡◌, List, [], ◌∷◌, ◌++◌, arith}
use gnaro.Memory.{page_size}
use gnaro.Btree.Layout.{
  node_type_offset, node_type_size, node_is_root_offset, node_is_root_size,
  node_parent_pointer_offset, node_parent_pointer_size, leaf_num_cells_offset, leaf_num_cells_size,
  leaf_next_leaf_offset, leaf_next_leaf_size, leaf_header_size, leaf_key_offset, leaf_key_size,
  leaf_value_offset, leaf_value_size, leaf_cell_size, leaf_max_cells, internal_num_keys_offset,
  internal_num_keys_size, internal_right_child_offset, internal_right_child_size,
  internal_header_size, internal_cell_size, node_common_header_size,
}
use gnaro.Btree.Leaf.{leaf_cell}
use gnaro.Btree.Internal.{internal_cell}

pub record Field : Type 0 where
  pub offset : ℕ
  pub size : ℕ

-- The header that all nodes share: the type, whether the node is the root, the parent.
abbrev pub common_header : List Field
common_header =
    record { offset = node_type_offset; size = node_type_size }
    ∷ record { offset = node_is_root_offset; size = node_is_root_size }
    ∷ record { offset = node_parent_pointer_offset; size = node_parent_pointer_size }
    ∷ []

-- A leaf's header: the shared one, the number of cells, the next leaf.
abbrev pub leaf_header : List Field
leaf_header =
    common_header
    ++ record { offset = leaf_num_cells_offset; size = leaf_num_cells_size }
      ∷ record { offset = leaf_next_leaf_offset; size = leaf_next_leaf_size }
      ∷ []

-- An internal node's header: the shared one, the number of keys, the right child.
abbrev pub internal_header : List Field
internal_header =
    common_header
    ++ record { offset = internal_num_keys_offset; size = internal_num_keys_size }
      ∷ record { offset = internal_right_child_offset; size = internal_right_child_size }
      ∷ []

-- A cell of a leaf: its key and its row.
abbrev pub leaf_cell_fields : List Field
leaf_cell_fields =
    record { offset = leaf_key_offset; size = leaf_key_size }
    ∷ record { offset = leaf_value_offset; size = leaf_value_size }
    ∷ []

-- The fields stand one behind the other from `from` to `to`.
abbrev pub Tiles : (from : ℕ) → List Field → (to : ℕ) → Type 0
Tiles from [] to = from ≡ to
Tiles from (f ∷ fs) to = (f.offset ≡ from) × Tiles (from + f.size) fs to

-- The headers and the leaf's cell are tiled by their fields, without gap or overlap. In a leaf,
-- each of the 13 cells lies behind the header and within the page, and any two lie apart; so do the
-- 510 cells that an internal node's page holds, and a 14th or a 511th would not fit.
pub layout-Tiles :
    Tiles 0 common_header node_common_header_size
    × Tiles 0 leaf_header leaf_header_size
    × Tiles 0 internal_header internal_header_size
    × Tiles 0 leaf_cell_fields leaf_cell_size
    × ((i j : ℕ)
        → i < j
        → j < leaf_max_cells
        → (leaf_header_size ≤ leaf_cell i)
          × (leaf_cell i + leaf_cell_size ≤ leaf_cell j)
          × (leaf_cell j + leaf_cell_size ≤ page_size))
    × ((i j : ℕ)
        → i < j
        → j < 510
        → (internal_header_size ≤ internal_cell i)
          × (internal_cell i + internal_cell_size ≤ internal_cell j)
          × (internal_cell j + internal_cell_size ≤ page_size))
    × (page_size < leaf_cell leaf_max_cells + leaf_cell_size)
    × (page_size < internal_cell 510 + internal_cell_size)
unfolding leaf_cell internal_cell
layout-Tiles = (
  omega arith,
  omega arith,
  omega arith,
  omega arith,
  λ i j lt inside. (omega arith, omega arith, omega arith),
  λ i j lt inside. (omega arith, omega arith, omega arith),
  omega arith,
  omega arith,
)
