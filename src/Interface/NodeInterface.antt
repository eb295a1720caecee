-- ===== src/Interface/NodeInterface.antt =====
-- The accessors of nodes that include/btree.h declares, and what they promise.
use gnaro.Base.{
  ℕ, List, ◌≡◌, refl, ◌∙◌, arith, Bool, true, false, not, ◌==◌, ap, some, inl, inr, ◌⊎◌,
}
use gnaro.Memory.{Pager, Cmd, ok, ◌>>◌, put}
use gnaro.Memory.Bytes.{Page, blit}
use gnaro.Memory.Laws.{load8-put, store8-put, put_self}
use gnaro.Pager.{Env}
use gnaro.Btree.Root.{node_new_root, node_get_max_key}
use gnaro.Btree.Print.{Line, btree_print}
use gnaro.Interface.DatabaseInterface.{Database}
use gnaro.Btree.Layout.{NodeType, leaf, internal}
use gnaro.Btree.Node.{
  node_get_type, node_set_type, node_is_root, node_set_root, node_parent, type_of_byte,
  byte_of_type, byte_of_bool,
}
use gnaro.Btree.Leaf.{Cursor, leaf_init, leaf_key, leaf_cell, leaf_num_cells, leaf_value, leaf_next}
use gnaro.Btree.Leaf.Init.{with_byte, with_byte_at, with_byte_out}
use gnaro.Btree.Internal.{
  internal_init, internal_find, internal_key, internal_cell, internal_num_keys, internal_child,
  internal_right_child,
}

-- The fields that all nodes have, the largest key under a node, a new root, and printing.
pub record NodeInterface : Type 0 where
  pub get_type : (node : ℕ) → Cmd NodeType
  pub set_type : (node : ℕ) → NodeType → Cmd (Unit {0})
  pub new_root : Database → (right_child_page_num : ℕ) → Cmd (Unit {0})
  pub get_max_key : (node : ℕ) → Cmd ℕ
  pub is_root : (node : ℕ) → Cmd Bool
  pub set_root : (node : ℕ) → Bool → Cmd (Unit {0})
  pub parent : ℕ
  pub print : (page_num indent_level : ℕ) → Cmd (List Line)

abbrev pub node_functions : Env → (fuel : ℕ) → NodeInterface
node_functions env fuel = record {
  get_type = node_get_type;
  set_type = node_set_type;
  new_root = λ d. node_new_root env fuel d.root_page_num;
  get_max_key = node_get_max_key env fuel;
  is_root = node_is_root;
  set_root = node_set_root;
  parent = node_parent;
  print = btree_print env fuel;
}

-- Pointers into a leaf, as offsets in its page.
pub record LeafInterface : Type 0 where
  pub init : (node : ℕ) → Cmd (Unit {0})
  pub key : (cell_num : ℕ) → ℕ
  pub cell : (cell_num : ℕ) → ℕ
  pub num_cells : ℕ
  pub value : (cell_num : ℕ) → ℕ
  pub next : ℕ

abbrev pub leaf_node : LeafInterface
leaf_node = record {
  init = leaf_init;
  key = leaf_key;
  cell = leaf_cell;
  num_cells = leaf_num_cells;
  value = leaf_value;
  next = leaf_next;
}

-- Starting an internal node, pointers into one, and the descent from one to a leaf. The pointer to a
-- child is checked, so it is found by a command.
pub record InternalInterface : Type 0 where
  pub init : (node : ℕ) → Cmd (Unit {0})
  pub key : (key_num : ℕ) → ℕ
  pub cell : (cell_num : ℕ) → ℕ
  pub num_keys : ℕ
  pub child : (node child_num : ℕ) → Cmd ℕ
  pub right_child : ℕ
  pub find : Database → (key page_num : ℕ) → Cmd Cursor

abbrev pub internal_node : Env → (fuel : ℕ) → InternalInterface
internal_node env fuel = record {
  init = internal_init;
  key = internal_key;
  cell = internal_cell;
  num_keys = internal_num_keys;
  child = internal_child;
  right_child = internal_right_child;
  find = λ d. internal_find env fuel;
}

-- What has been set in a node's header is what is got, whichever of the two is set first.
pub record IsLawful (H : NodeInterface) : Type 0 where
  pub get_type-set_root :
      (node : ℕ) (type : NodeType) (is_root : Bool) (p : Page) (s : Pager)
      → s.pages node ≡ some p
      → (type ≡ leaf) ⊎ (type ≡ internal)
      → (q : Page) × ((H.set_type node type >> H.set_root node is_root >> H.get_type node) s
          ≡ ok type (put node q s))
  pub is_root-set_type :
      (node : ℕ) (type : NodeType) (is_root : Bool) (p : Page) (s : Pager)
      → s.pages node ≡ some p
      → (q : Page) × ((H.set_root node is_root >> H.set_type node type >> H.is_root node) s
          ≡ ok is_root (put node q s))

type_read :
    (type : NodeType) → (type ≡ leaf) ⊎ (type ≡ internal) → type_of_byte (byte_of_type type) ≡ type
unfolding type_of_byte byte_of_type
type_read type (inl e) = rw e refl
type_read type (inr e) = rw e refl

bool_read : (b : Bool) → not (byte_of_bool b == 0) ≡ b
unfolding byte_of_bool
bool_read true = refl
bool_read false = refl

module _ (node : ℕ) (type : NodeType) (is_root : Bool) (p : Page) (s : Pager) where
  t : ℕ
  t = byte_of_type type

  r : ℕ
  r = byte_of_bool is_root

  type_last :
      (known : (type ≡ leaf) ⊎ (type ≡ internal))
      → (node_set_type node type >> node_set_root node is_root >> node_get_type node) (put node p s)
        ≡ ok type (put node (with_byte (with_byte p 0 t) 1 r) s)
  unfolding node_set_type node_set_root node_get_type with_byte t r
  type_last known =
      rw
        (
          store8-put node p s 0 (byte_of_type type) (omega arith),
          store8-put node (blit p 0 (λ _. byte_of_type type) 0 1) s 1 (byte_of_bool is_root)
              (omega arith),
          load8-put node
              (blit (blit p 0 (λ _. byte_of_type type) 0 1) 1 (λ _. byte_of_bool is_root) 0 1) s 0
              (omega arith),
        )
        (ap (λ got. ok got (put node (with_byte (with_byte p 0 t) 1 r) s))
          (ap type_of_byte
              (with_byte_out (with_byte p 0 t) 1 r 0 (inl (omega arith)) ∙ with_byte_at p 0 t)
            ∙ type_read type known))

  root_last :
      (node_set_root node is_root >> node_set_type node type >> node_is_root node) (put node p s)
      ≡ ok is_root (put node (with_byte (with_byte p 1 r) 0 t) s)
  unfolding node_set_type node_set_root node_is_root with_byte t r
  root_last =
      rw
        (
          store8-put node p s 1 (byte_of_bool is_root) (omega arith),
          store8-put node (blit p 1 (λ _. byte_of_bool is_root) 0 1) s 0 (byte_of_type type)
              (omega arith),
          load8-put node
              (blit (blit p 1 (λ _. byte_of_bool is_root) 0 1) 0 (λ _. byte_of_type type) 0 1) s 1
              (omega arith),
        )
        (ap (λ got. ok got (put node (with_byte (with_byte p 1 r) 0 t) s))
          (ap (λ (v : ℕ). not (v == 0))
              (with_byte_out (with_byte p 1 r) 0 t 1 (inr (omega arith)) ∙ with_byte_at p 1 r)
            ∙ bool_read is_root))

-- The header's accessors of src/btree.c on an allocated page: the type and the root mark are one byte
-- each, so that what was set last does not disturb what was set before, and each is read as written.
pub node_functions-IsLawful : (env : Env) (fuel : ℕ) → IsLawful (node_functions env fuel)
node_functions-IsLawful env fuel = record {
  get_type-set_root = λ node type is_root p s here known.
      (_, rw (put_self node p s here) at (type_last node type is_root p s known));
  is_root-set_type = λ node type is_root p s here.
      (_, rw (put_self node p s here) at (root_last node type is_root p s));
}
