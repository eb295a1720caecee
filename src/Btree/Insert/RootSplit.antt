-- ===== src/Btree/Insert/RootSplit.antt =====
-- `btree_node_leaf_split_and_insert` of src/btree.c on a full leaf that is the root.
use gnaro.Base.{
  ℕ, suc, ◌+◌, ◌^◌, ◌≤◌, ◌<◌, ◌≡◌, ◌≢◌, ◌∙◌, sym, ap, arith, some, none, true, false, ◌++◌,
}
use mathlib.Core.Path.{ap₂, subst}
use gnaro.Memory.{Pager, ok, page_size}
use gnaro.Memory.Bytes.{Page, word, word-ext}
use gnaro.Memory.Laws.{load8-ok}
use gnaro.Row.{Row}
use gnaro.Row.RoundTrip.{stored}
use gnaro.Pager.{Env, pager_max_pages}
use gnaro.Btree.Layout.{leaf_max_cells}
use gnaro.Btree.Node.{node_parent, node_is_root}
use gnaro.Btree.Leaf.{Cursor, leaf_num_cells, leaf_next, leaf_key}
use gnaro.Btree.Leaf.View.{Cell, cells, key_at, IsPlace, leaf_cell_exact}
use gnaro.Btree.Internal.{internal_num_keys, internal_right_child}
use gnaro.Btree.Internal.View.{separator, child_at}
use gnaro.Btree.Root.{node_new_root}
use gnaro.Btree.Root.Pages.{TwoLeaves}
use gnaro.Btree.Root.Tree.{node_new_root-TreeState}
use gnaro.Btree.Insert.{leaf_split, leaf_split_and_insert}
use gnaro.Btree.Insert.Listing.{insert_sorted}
use gnaro.Btree.Insert.SplitCells.{IsSplit}
use gnaro.Btree.Insert.SplitLeaf.{leaf_split-SplitState}
use gnaro.Btree.Insert.AllKeys.{
  AllKeys, AllKeys-insert_sorted, AllKeys-append, cells-AllKeys, key_at-AllKeys,
}

-- The tree after the first split: the root `r` with one key between the leaves `l` and `m`.
pub record IsRootSplit (p : Page) (x : Cell) (root left right : ℕ) (r l m : Page) : Type 0 where
  pub content : cells l ++ cells m ≡ insert_sorted x (cells p)
  pub root_type : r 0 ≡ 0
  pub root_mark : r 1 ≡ 1
  pub num_keys : word r internal_num_keys ≡ 1
  pub left_child : child_at r 0 ≡ left
  pub between : separator r 0 ≡ key_at l 6
  pub right_child : word r internal_right_child ≡ right
  pub left_type : l 0 ≡ 1
  pub left_mark : l 1 ≡ 0
  pub left_count : word l leaf_num_cells ≡ 7
  pub left_parent : word l node_parent ≡ root
  pub left_next : word l leaf_next ≡ right
  pub right_type : m 0 ≡ 1
  pub right_mark : m 1 ≡ 0
  pub right_count : word m leaf_num_cells ≡ 7
  pub right_parent : word m node_parent ≡ root
  pub right_next : word m leaf_next ≡ word p leaf_next

pub record RootSplitState (p : Page) (x : Cell) (root left right : ℕ) (s t : Pager) : Type 0 where
  pub root_page : Page
  pub left_page : Page
  pub right_page : Page
  pub root_cached : t.pages root ≡ some root_page
  pub left_cached : t.pages left ≡ some left_page
  pub right_cached : t.pages right ≡ some right_page
  pub split : IsRootSplit p x root left right root_page left_page right_page
  pub others : (k : ℕ) → k ≢ root → k ≢ left → k ≢ right → t.pages k ≡ s.pages k
  pub file : t.file_descriptor ≡ s.file_descriptor

module _ (p : Page) (x : Cell) (root left right : ℕ) (p2 q2 r l m : Page)
    (d : IsSplit p x right p2 q2) (type : p 0 ≡ 1)
    (tree : TwoLeaves p2 q2 root left (key_at p2 6) right r l m) where
  left_word : (o : ℕ) → 6 ≤ o → o + 4 ≤ page_size → word l o ≡ word p2 o
  left_word o low fits =
      word-ext l p2 o o λ k lt. tree.left_body (o + k) (omega arith) (omega arith)

  right_word : (o : ℕ) → 6 ≤ o → o + 4 ≤ page_size → word m o ≡ word q2 o
  right_word o low fits =
      word-ext m q2 o o λ k lt. tree.right_body (o + k) (omega arith) (omega arith)

  split_tree-IsRootSplit : IsRootSplit p x root left right r l m
  unfolding key_at
  split_tree-IsRootSplit = record {
    content = ap₂ ◌++◌ tree.left_cells tree.right_cells ∙ d.content;
    root_type = tree.root_type;
    root_mark = tree.root_mark;
    num_keys = tree.num_keys;
    left_child = tree.left_child;
    between =
        tree.between
        ∙ sym (
            left_word (leaf_key 6) (omega (arith, leaf_cell_exact 6 (omega arith)))
              (omega (arith, leaf_cell_exact 6 (omega arith))));
    right_child = tree.right_child;
    left_type = tree.left_type ∙ d.header_old 0 (omega arith) ∙ type;
    left_mark = tree.left_mark;
    left_count = left_word leaf_num_cells (omega arith) (omega arith) ∙ d.count_old;
    left_parent = tree.left_parent;
    left_next = tree.left_next ∙ d.next_old;
    right_type = tree.right_header 0 (omega arith) ∙ d.type_new;
    right_mark = tree.right_header 1 (omega arith) ∙ d.root_new;
    right_count = right_word leaf_num_cells (omega arith) (omega arith) ∙ d.count_new;
    right_parent = tree.right_parent;
    right_next = tree.right_next ∙ d.next_new;
  }

-- The keys of the left half have the bound that all keys have.
left_key_below :
    (b : ℕ) (p : Page) (x : Cell) (new : ℕ) (p2 q2 : Page) (j : ℕ)
    → IsSplit p x new p2 q2
    → x.key < b
    → ((i : ℕ) → i < word p leaf_num_cells → key_at p i < b)
    → j < 7
    → key_at p2 j < b
left_key_below b p x new p2 q2 j d fits all lt =
    key_at-AllKeys (λ k. k < b) p2 j
      (AllKeys-append (λ k. k < b) (cells p2) (cells q2)
        (subst (AllKeys (λ k. k < b)) (sym d.content)
          (AllKeys-insert_sorted (λ k. k < b) x (cells p) fits (cells-AllKeys (λ k. k < b) p all))))
      (omega (arith, d.count_old))

node_is_root-marked :
    (node : ℕ) (s : Pager) (p : Page)
    → s.pages node ≡ some p
    → p 1 ≡ 1
    → node_is_root node s ≡ ok true s
unfolding node_is_root
node_is_root-marked node s p here mark = rw (load8-ok node s here 1 (omega arith), mark)

split_and_insert-root :
    (env : Env) (fuel root_page_num new old_max : ℕ) (cursor : Cursor) (key : ℕ) (row : Row)
    (s t u : Pager)
    → leaf_split env fuel cursor key row s ≡ ok (new, old_max) t
    → node_is_root cursor.page_num t ≡ ok true t
    → node_new_root env fuel root_page_num new t ≡ ok tt u
    → leaf_split_and_insert env fuel root_page_num cursor key row s ≡ ok tt u
unfolding leaf_split_and_insert
split_and_insert-root env fuel root_page_num new old_max cursor key row s t u split mark grown =
    rw (split, mark, grown)

-- With the root a leaf of 13 cells, the cursor on the key's place in it, keys below `2 ^ 31`, two
-- pages left to allocate, the first of them not in the cache, and reading that does not fail, the
-- insertion returns. Then the root is an internal node with one key, the largest of the left half,
-- over two leaves of seven cells that are together the sorted insertion of the new cell; both have
-- the root as their parent, and the right one follows the left one in the chain.
pub leaf_split_and_insert-RootSplitState :
    (env : Env) (fuel : ℕ) (cursor : Cursor) (key : ℕ) (row : Row) (s : Pager) (p : Page)
    → cursor.page_num < s.num_pages
    → s.num_pages + 1 < pager_max_pages
    → ((o : ℕ) → env.read_fails o ≡ false)
    → s.pages cursor.page_num ≡ some p
    → s.pages s.num_pages ≡ none
    → p 0 ≡ 1
    → p 1 ≡ 1
    → word p leaf_num_cells ≡ leaf_max_cells
    → word p leaf_next < 2 ^ 32
    → IsPlace p leaf_max_cells key cursor.cell_num
    → ((i : ℕ) → i < leaf_max_cells → key_at p i < 2 ^ 31)
    → key < 2 ^ 31
    → row.id < 2 ^ 32
    → (t : Pager) × (leaf_split_and_insert env (suc fuel) cursor.page_num cursor key row s
        ≡ ok tt t)
      × RootSplitState p
          (record { key = key; row = stored row })
          cursor.page_num
          (s.num_pages + 1)
          s.num_pages
          s
          t
leaf_split_and_insert-RootSplitState env fuel cursor key row s p counted room reads here fresh type
      mark full next_fits place keys_fit key_fits id_fits =
    let root = cursor.page_num in
    let new = s.num_pages in
    let (t, split, a) =
      leaf_split-SplitState env fuel cursor key row s p counted (omega arith) reads here type full
        next_fits place (omega arith) id_fits in
    let more : t.num_pages ≡ new + 1 = a.counted fresh in
    let below : (j : ℕ) → j < 7 → key_at a.left j < 2 ^ 31 = λ j lt.
      left_key_below (2 ^ 31) p (record { key = key; row = stored row }) new a.left a.right j
        a.split key_fits (λ i small. keys_fit i (omega arith)) lt in
    let below0 = below 0 (omega arith) in
    let below6 = below 6 (omega arith) in
    let left_type : a.left 0 ≡ 1 = a.split.header_old 0 (omega arith) ∙ type in
    let (u, grown, b) =
      node_new_root-TreeState env fuel root new 6 t a.left a.right (omega arith) (omega arith)
        (λ e. omega arith) (omega arith) reads a.left_cached a.right_cached left_type
        a.split.count_old (omega arith) (omega (arith, a.split.count_new)) (λ e. omega arith)
        (omega arith) in
    (
      u,
      split_and_insert-root env (suc fuel) root new (key_at p 12) cursor key row s t u split
          (node_is_root-marked root t a.left a.left_cached
            (a.split.header_old 1 (omega arith) ∙ mark))
          grown,
      record {
        root_page = b.root_page;
        left_page = b.left_page;
        right_page = b.right_page;
        root_cached = b.root_cached;
        left_cached = sym (ap u.pages more) ∙ b.left_cached;
        right_cached = b.right_cached;
        split =
            split_tree-IsRootSplit p (record { key = key; row = stored row }) root (new + 1) new
              a.left a.right b.root_page b.left_page b.right_page a.split type
              (subst
                (λ n.
                  TwoLeaves a.left a.right root n (key_at a.left 6) new b.root_page b.left_page
                    b.right_page)
                more b.tree);
        others = λ k ne_root ne_left ne_right.
            b.others k ne_root (λ e. ne_left (e ∙ more)) ne_right ∙ a.others k ne_root ne_right;
        file = b.file ∙ a.file;
      },
    )
