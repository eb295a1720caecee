-- ===== src/Btree/Root/MaxKey.antt =====
-- `btree_node_get_max_key` of src/btree.c on a leaf.
use gnaro.Base.{ℕ, suc, ◌+◌, ◌-◌, ◌%◌, ◌^◌, ◌<◌, ◌≡◌, arith, some}
use gnaro.Memory.{Pager, ok}
use gnaro.Memory.Bytes.{Page, word}
use gnaro.Memory.Laws.{load32-ok}
use gnaro.Pager.{Env}
use gnaro.Btree.Layout.{leaf_max_cells}
use gnaro.Btree.Leaf.{leaf_num_cells, leaf_key}
use gnaro.Btree.Leaf.View.{node_get_type-leaf, key_at, leaf_cell_fits}
use gnaro.Btree.Root.{node_get_max_key}

-- The largest key of a leaf that has cells is its last.
pub node_get_max_key-leaf :
    (env : Env) (fuel node n : ℕ) (s : Pager) (p : Page)
    → s.pages node ≡ some p
    → p 0 ≡ 1
    → word p leaf_num_cells ≡ suc n
    → n < leaf_max_cells
    → node_get_max_key env (suc fuel) node s ≡ ok (key_at p n) s
unfolding node_get_max_key key_at
node_get_max_key-leaf env fuel node n s p here type count few =
    let last : (suc n + 2 ^ 32 - 1) % 2 ^ 32 ≡ n = omega arith in
    rw (
      node_get_type-leaf node s here type,
      load32-ok node s here leaf_num_cells (omega arith),
      count,
      last,
      load32-ok node s here (leaf_key n) (omega (arith, leaf_cell_fits n few)),
    )
