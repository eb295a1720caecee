-- ===== src/Table/Grow.antt =====
-- The insert that splits the root of a full table of one leaf, and a select behind it.
use gnaro.Base.{
  ℕ, ◌≤◌, ◌<◌, ◌≡◌, ◌≢◌, refl, ◌∙◌, sym, arith, some, List, length, inl, inr, Bool-cases, ltb,
  ne→not_==,
}
use mathlib.Core.Path.{subst}
use gnaro.Memory.{Pager, ok}
use gnaro.Memory.Bytes.{Page, word}
use gnaro.Memory.Laws.{load32-ok}
use gnaro.Pager.{Env}
use gnaro.Pager.Cache.{get_page-cached}
use gnaro.Btree.Leaf.{Cursor, leaf_num_cells, leaf_next, leaf_key}
use gnaro.Btree.Layout.{leaf_max_cells}
use gnaro.Btree.Leaf.View.{Cell, cells, key_at, leaf_cell_exact}
use gnaro.Btree.Insert.{leaf_insert, leaf_split_and_insert}
use gnaro.Cursor.{cursor_find_key}
use gnaro.Statement.Prepare.{Statement}
use gnaro.Statement.Execute.{success, statement_execute_insert, statement_execute_select}
use gnaro.Table.Select.{rows}
use gnaro.Table.Chain.{Chain, last, link}
use gnaro.Table.SelectTree.{Leftmost, execute_select-Chain}
use gnaro.Table.TwoLevels.{IsSearchTree}

-- The two leaves are a chain.
pub grown-Chain :
    (s : Pager) (root left right next : ℕ) (xs : List Cell)
    (g : IsSearchTree s root left right next xs)
    → next ≡ 0
    → right ≢ 0
    → Chain s left xs
grown-Chain s root left right next xs g none_next real =
    let linked : Chain s (word g.left_page leaf_next) (cells g.right_page) =
      subst (λ n. Chain s n (cells g.right_page)) (sym g.left_next)
        (last right (cells g.right_page) g.right_page g.right_leaf g.right_some
          (g.right_next ∙ none_next) refl) in
    link left xs g.left_page (cells g.right_page) g.left_leaf g.left_some
      (λ e. real (sym g.left_next ∙ e)) linked (sym g.in_order)

pub grown-Leftmost :
    (s : Pager) (root left right next : ℕ) (xs : List Cell)
    → IsSearchTree s root left right next xs
    → Leftmost s 1 root left
unfolding Leftmost
grown-Leftmost s root left right next xs g = (g.root_page, g.root_cached, g.left_child)

-- A select on the tree that the first split leaves.
pub select-grown :
    (env : Env) (fuel : ℕ) (s : Pager) (root left right next : ℕ) (xs : List Cell)
    → IsSearchTree s root left right next xs
    → next ≡ 0
    → right ≢ 0
    → 1 < fuel
    → length xs < fuel
    → statement_execute_select env fuel root s ≡ ok (rows xs, success) s
select-grown env fuel s root left right next xs g none_next real high enough =
    execute_select-Chain env s 1 fuel root left xs g.tree
      (grown-Leftmost s root left right next xs g)
      (grown-Chain s root left right next xs g none_next real) high enough

-- `btree_node_leaf_insert` into a full leaf splits it.
pub leaf_insert-full :
    (env : Env) (fuel root : ℕ) (cursor : Cursor) (statement : Statement) (s t : Pager) (p : Page)
    → cursor.page_num < 100
    → s.pages cursor.page_num ≡ some p
    → word p leaf_num_cells ≡ leaf_max_cells
    → leaf_split_and_insert env fuel root cursor statement.row_to_insert.id statement.row_to_insert
        s
      ≡ ok tt t
    → leaf_insert env fuel root cursor statement.row_to_insert.id statement.row_to_insert s
      ≡ ok tt t
unfolding leaf_insert
leaf_insert-full env fuel root cursor statement s t p small here full splits = rw (
  get_page-cached env cursor.page_num s small here,
  load32-ok cursor.page_num s here leaf_num_cells (omega arith),
  full,
  splits,
)

-- An insert whose id is not at the cursor's place stores the row.
pub insert-stores :
    (env : Env) (fuel root : ℕ) (cursor : Cursor) (statement : Statement) (s t : Pager) (p : Page)
    → root < 100
    → s.pages root ≡ some p
    → cursor.cell_num ≤ leaf_max_cells
    → cursor_find_key env fuel root statement.row_to_insert.id s ≡ ok cursor s
    → (cursor.cell_num < word p leaf_num_cells
        → key_at p cursor.cell_num ≢ statement.row_to_insert.id)
    → leaf_insert env fuel root cursor statement.row_to_insert.id statement.row_to_insert s
      ≡ ok tt t
    → statement_execute_insert env fuel root statement s ≡ ok success t
unfolding statement_execute_insert key_at
insert-stores env fuel root cursor statement s t p small here few found absent stores =
    rw
      (
        get_page-cached env root s small here,
        load32-ok root s here leaf_num_cells (omega arith),
        found,
      )
      (elim (Bool-cases (ltb cursor.cell_num (word p leaf_num_cells))) [
        | inl inside ↦ rw (
          inside,
          load32-ok root s here (leaf_key cursor.cell_num)
              (omega (arith, leaf_cell_exact cursor.cell_num (omega arith))),
          ne→not_== (word p (leaf_key cursor.cell_num)) statement.row_to_insert.id
              (absent (ground arith)),
          stores,
        )
        | inr outside ↦ rw (outside, stores)
      ])
