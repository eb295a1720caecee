-- ===== src/Btree/Node.antt =====
-- The fields that every node of src/btree.c has: its type, whether it is the root, its parent.
use gnaro.Base.{ℕ, ◌%◌, ◌^◌, Bool, true, false, not, ◌==◌, if◌then◌else◌}
use gnaro.Memory.{Cmd, pure, ◌>>=◌, load8, store8}
use gnaro.Btree.Layout.{
  NodeType, internal, leaf, unknown, node_type_offset, node_is_root_offset,
  node_parent_pointer_offset,
}

-- Arithmetic of `uint32_t` wraps.
abbrev pub u32 : ℕ → ℕ
u32 x = x % 2 ^ 32

-- The conversions between a byte and `NodeType`.
unfoldable pub type_of_byte : ℕ → NodeType
type_of_byte v = if v == 0 then internal else if v == 1 then leaf else unknown v

unfoldable pub byte_of_type : NodeType → ℕ
byte_of_type internal = 0
byte_of_type leaf = 1
byte_of_type (unknown v) = v % 256

unfoldable pub byte_of_bool : Bool → ℕ
byte_of_bool true = 1
byte_of_bool false = 0

unfoldable pub node_get_type : (node : ℕ) → Cmd NodeType
unfolding type_of_byte
node_get_type node = do value ← load8 node node_type_offset; pure (type_of_byte value)

unfoldable pub node_set_type : (node : ℕ) → NodeType → Cmd (Unit {0})
unfolding byte_of_type
node_set_type node type = store8 node node_type_offset (byte_of_type type)

unfoldable pub node_is_root : (node : ℕ) → Cmd Bool
node_is_root node = do value ← load8 node node_is_root_offset; pure (not (value == 0))

unfoldable pub node_set_root : (node : ℕ) → Bool → Cmd (Unit {0})
unfolding byte_of_bool
node_set_root node is_root = store8 node node_is_root_offset (byte_of_bool is_root)

-- The offset of the parent's page number.
abbrev pub node_parent : ℕ
node_parent = node_parent_pointer_offset
