-- ===== src/Interface/TreeInterface.antt =====
-- The operations on the tree that include/btree.h declares, which src/btree.c implements. What takes
-- a cursor there finds the database in it; here it is an argument of its own.
use gnaro.Base.{ℕ}
use gnaro.Memory.{Cmd}
use gnaro.Row.{Row}
use gnaro.Pager.{Env}
use gnaro.Btree.Leaf.{Cursor, leaf_find}
use gnaro.Btree.Internal.{internal_find_child, internal_update_key}
use gnaro.Btree.Grow.{internal_insert, internal_split_and_insert}
use gnaro.Btree.Insert.{leaf_insert, leaf_split_and_insert}
use gnaro.Interface.DatabaseInterface.{Database}

-- On leaves.
pub record LeafOperations : Type 0 where
  pub find : Database → (key page_num : ℕ) → Cmd Cursor
  pub insert : Database → Cursor → (key : ℕ) → Row → Cmd (Unit {0})
  pub split_and_insert : Database → Cursor → (key : ℕ) → Row → Cmd (Unit {0})

-- On internal nodes.
pub record InternalOperations : Type 0 where
  pub find_child : (node key : ℕ) → Cmd ℕ
  pub insert : Database → (parent_page_num child_page_num : ℕ) → Cmd (Unit {0})
  pub split_and_insert : Database → (parent_page_num child_page_num : ℕ) → Cmd (Unit {0})
  pub update_key : (node old_key new_key : ℕ) → Cmd (Unit {0})

module _ (env : Env) (fuel : ℕ) where
  abbrev pub leaf_operations : LeafOperations
  leaf_operations = record {
    find = λ d. leaf_find env;
    insert = λ d. leaf_insert env fuel d.root_page_num;
    split_and_insert = λ d. leaf_split_and_insert env fuel d.root_page_num;
  }

  abbrev pub internal_operations : InternalOperations
  internal_operations = record {
    find_child = internal_find_child;
    insert = λ d. internal_insert env fuel d.root_page_num;
    split_and_insert = λ d. internal_split_and_insert env fuel d.root_page_num;
    update_key = internal_update_key;
  }
