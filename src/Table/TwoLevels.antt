-- ===== src/Table/TwoLevels.antt =====
-- The table after its first split: a well-formed search tree of two levels.
use gnaro.Base.{
  ℕ, suc, ◌+◌, ◌^◌, ◌≤◌, ◌<◌, ◌≡◌, List, ◌≢◌, sym, arith, some, none, false, ◌++◌, ◌==◌, ==→eq,
  Bool-cases, inl, inr, ltb,
}
use mathlib.Core.Path.{subst}
use gnaro.Memory.{Pager, ok}
use gnaro.Memory.Bytes.{Page, word}
use gnaro.Row.{Row}
use gnaro.Row.RoundTrip.{stored}
use gnaro.Pager.{Env, pager_max_pages}
use gnaro.Btree.Layout.{leaf_max_cells}
use gnaro.Btree.Leaf.{Cursor, leaf_num_cells, leaf_next}
use gnaro.Btree.Leaf.View.{Cell, cells, key_at, IsPlace, Ascending}
use gnaro.Btree.Internal.{internal_num_keys}
use gnaro.Btree.Internal.View.{separator}
use gnaro.Btree.Insert.{leaf_split_and_insert}
use gnaro.Btree.Insert.Listing.{insert_sorted}
use gnaro.Btree.Insert.AllKeys.{AllKeys, cells-AllKeys}
use gnaro.Btree.Insert.Ascend.{
  KeysAscend, KeysAscend-insert_sorted, KeysAscend-append, cells-KeysAscend, cells-Ascending,
  cells-behind,
}
use gnaro.Btree.Insert.RootSplit.{RootSplitState, leaf_split_and_insert-RootSplitState}
use gnaro.Cursor.Descent.{IsTree, IsLeaf, IsInternal, child_number}

-- The root of two leaves: a tree of height 1, whose key parts the keys of the one from the other's,
-- and whose cells are `content` from left to right; the successor of the right leaf is `next`.
pub record IsSearchTree (s : Pager) (root left right next : ℕ) (content : List Cell) : Type 0 where
  pub root_page : Page
  pub left_page : Page
  pub right_page : Page
  pub tree : IsTree s 1 root
  pub root_cached : s.pages root ≡ some root_page
  pub left_leaf : IsLeaf s left left_page
  pub right_leaf : IsLeaf s right right_page
  pub left_some : 0 < word left_page leaf_num_cells
  pub right_some : 0 < word right_page leaf_num_cells
  pub left_next : word left_page leaf_next ≡ right
  pub right_next : word right_page leaf_next ≡ next
  pub one_key : word root_page internal_num_keys ≡ 1
  pub left_child : child_number root_page 0 ≡ left
  pub right_child : child_number root_page 1 ≡ right
  pub in_order : cells left_page ++ cells right_page ≡ content
  pub ascend : KeysAscend content
  pub left_keys : AllKeys (λ k. k ≤ separator root_page 0) (cells left_page)
  pub right_keys : AllKeys (λ k. separator root_page 0 < k) (cells right_page)

module _ (p : Page) (x : Cell) (root left right : ℕ) (s t : Pager)
    (g : RootSplitState p x root left right s t) (root_small : root < pager_max_pages)
    (left_small : left < pager_max_pages) (right_small : right < pager_max_pages)
    (ascending : Ascending p (word p leaf_num_cells))
    (absent : (j : ℕ) → j < word p leaf_num_cells → key_at p j ≢ x.key) where
  all_ascend : KeysAscend (cells g.left_page ++ cells g.right_page)
  all_ascend = subst KeysAscend (sym g.split.content) (
      KeysAscend-insert_sorted x (cells p) (cells-AllKeys (λ k. k ≢ x.key) p absent)
        (cells-KeysAscend p ascending))

  halves_ascend : KeysAscend (cells g.left_page) × KeysAscend (cells g.right_page)
  halves_ascend = KeysAscend-append (cells g.left_page) (cells g.right_page) all_ascend

  left-IsLeaf : IsLeaf t left g.left_page
  left-IsLeaf = record {
    small = left_small;
    cached = g.left_cached;
    type = g.split.left_type;
    few = omega (arith, g.split.left_count);
    ascending = cells-Ascending g.left_page halves_ascend.0;
  }

  right-IsLeaf : IsLeaf t right g.right_page
  right-IsLeaf = record {
    small = right_small;
    cached = g.right_cached;
    type = g.split.right_type;
    few = omega (arith, g.split.right_count);
    ascending = cells-Ascending g.right_page halves_ascend.1;
  }

  root-IsInternal : IsInternal t root g.root_page
  root-IsInternal = record {
    small = root_small;
    cached = g.root_cached;
    type = g.split.root_type;
    few = omega (arith, g.split.num_keys);
    ascending = λ i j le inside.
        let same : i ≡ j = omega (arith, g.split.num_keys) in rw same (omega arith);
  }

  first_child : child_number g.root_page 0 ≡ left
  unfolding child_number
  first_child = rw g.split.num_keys g.split.left_child

  second_child : child_number g.root_page 1 ≡ right
  unfolding child_number
  second_child = rw g.split.num_keys g.split.right_child

  grown-IsTree : IsTree t 1 root
  unfolding IsTree
  grown-IsTree = (
    g.root_page,
    root-IsInternal,
    λ i le. elim (Bool-cases (i == 0)) [
      | inl first ↦ rw (==→eq i 0 first, first_child) (g.left_page, left-IsLeaf)
      | inr other ↦
          let bound : i ≤ 1 = omega (arith, g.split.num_keys) in
          let second : i ≡ 1 = ground arith in
          rw (second, second_child) (g.right_page, right-IsLeaf)
    ],
  )

  left_at_most :
      (j : ℕ) → j < word g.left_page leaf_num_cells → key_at g.left_page j ≤ key_at g.left_page 6
  left_at_most j lt = elim (Bool-cases (ltb j 6)) [
    | inl less ↦
        let below = left-IsLeaf.ascending j 6 (ground arith) (omega (arith, g.split.left_count)) in
        omega arith
    | inr last ↦
        let few = g.split.left_count in let same : j ≡ 6 = ground arith in rw same (omega arith)
  ]

  grown-IsSearchTree : IsSearchTree t root left right (word p leaf_next) (insert_sorted x (cells p))
  grown-IsSearchTree = record {
    root_page = g.root_page;
    left_page = g.left_page;
    right_page = g.right_page;
    tree = grown-IsTree;
    root_cached = g.root_cached;
    left_leaf = left-IsLeaf;
    right_leaf = right-IsLeaf;
    left_some = omega (arith, g.split.left_count);
    right_some = omega (arith, g.split.right_count);
    left_next = g.split.left_next;
    right_next = g.split.right_next;
    one_key = g.split.num_keys;
    left_child = first_child;
    right_child = second_child;
    in_order = g.split.content;
    ascend = subst KeysAscend g.split.content all_ascend;
    left_keys =
        cells-AllKeys (λ k. k ≤ separator g.root_page 0) g.left_page
          λ j lt. subst (λ m. key_at g.left_page j ≤ m) (sym g.split.between) (left_at_most j lt);
    right_keys =
        subst (λ m. AllKeys (λ k. m < k) (cells g.right_page)) (sym g.split.between)
          (cells-behind g.left_page 6 (cells g.right_page) all_ascend
            (omega (arith, g.split.left_count)));
  }

-- Where the root is a leaf with 13 ascending keys below `2 ^ 31`, the insertion of an absent key at
-- its place, with two pages left to allocate, the first of them not in the cache, and reading that
-- does not fail, returns. What it leaves is a search tree of two levels on the same root page: the
-- keys of the left leaf are at most the root's key and those of the right one larger, and the cells
-- from left to right are the sorted insertion of the new one.
pub leaf_split_and_insert-IsSearchTree :
    (env : Env) (fuel : ℕ) (cursor : Cursor) (key : ℕ) (row : Row) (s : Pager) (p : Page)
    → cursor.page_num < s.num_pages
    → s.num_pages + 1 < pager_max_pages
    → ((o : ℕ) → env.read_fails o ≡ false)
    → IsLeaf s cursor.page_num p
    → s.pages s.num_pages ≡ none
    → p 1 ≡ 1
    → word p leaf_num_cells ≡ leaf_max_cells
    → word p leaf_next < 2 ^ 32
    → IsPlace p leaf_max_cells key cursor.cell_num
    → ((i : ℕ) → i < leaf_max_cells → key_at p i < 2 ^ 31)
    → ((i : ℕ) → i < leaf_max_cells → key_at p i ≢ key)
    → key < 2 ^ 31
    → row.id < 2 ^ 32
    → (t : Pager) × (leaf_split_and_insert env (suc fuel) cursor.page_num cursor key row s
        ≡ ok tt t)
      × IsSearchTree t cursor.page_num
          (s.num_pages + 1)
          s.num_pages
          (word p leaf_next)
          (insert_sorted (record { key = key; row = stored row }) (cells p))
leaf_split_and_insert-IsSearchTree env fuel cursor key row s p counted room reads l fresh mark full
      next_fits place keys_fit absent key_fits id_fits =
    let (t, runs, g) =
      leaf_split_and_insert-RootSplitState env fuel cursor key row s p counted room reads l.cached
        fresh l.type mark full next_fits place keys_fit key_fits id_fits in
    (
      t,
      runs,
      grown-IsSearchTree p (record { key = key; row = stored row }) cursor.page_num
          (s.num_pages + 1) s.num_pages s t g l.small (omega arith) (omega arith) l.ascending
          (λ j lt. absent j (omega arith)),
    )
