-- ===== src/Table/PrintTree.antt =====
-- `btree_print` of src/btree.c on a tree of any height, against a listing of the tree.
use gnaro.Base.{
  ℕ, zero, suc, ◌+◌, ◌≤◌, ◌<◌, ◌≡◌, refl, ◌∙◌, sym, ap, arith, Option, none, some, List, [], ◌∷◌,
  ◌++◌, ◌==◌, if◌then◌else◌, ==_refl, Bool-cases, inl, inr, map,
}
use gnaro.Memory.{Pager, Cmd, ok}
use gnaro.Memory.Bytes.{Page, word}
use gnaro.Memory.Laws.{load32-ok}
use gnaro.Pager.{Env}
use gnaro.Pager.Cache.{get_page-cached}
use gnaro.Btree.Layout.{leaf_max_cells}
use gnaro.Btree.Node.{u32}
use gnaro.Btree.Leaf.{leaf_num_cells, leaf_key}
use gnaro.Btree.Leaf.View.{
  Cell, node_get_type-leaf, key_at, cell_at, cells_from, cells, leaf_cell_fits,
}
use gnaro.Btree.Internal.{internal_num_keys, internal_right_child, internal_key}
use gnaro.Btree.Internal.View.{separator, internal_cell_fits}
use gnaro.Btree.Print.{
  Line, leaf_line, leaf_key_line, internal_line, internal_key_line, print_leaf_keys, print_children,
  print_internal, btree_print,
}
use gnaro.Cursor.Descent.{
  IsTree, IsLeaf, IsInternal, child_number, child_offset, node_get_type-internal, tree_small,
}

-- The lines of the keys.
abbrev pub key_lines : (indent_level : ℕ) → List Cell → List Line
key_lines indent_level xs = map (λ (x : Cell). leaf_key_line (u32 (indent_level + 1)) x.key) xs

-- The content of a page; a page that is not cached does not occur in a tree.
page_of : Option Page → Page
page_of none = λ _. 0
page_of (some p) = p

-- The lines of `rounds` children from the `i`-th on, each followed by the line of its key.
unfoldable pub keyed_lines :
    (lines : ℕ → List Line) (p : Page) (level : ℕ) → (rounds i : ℕ) → List Line
keyed_lines lines p level zero i = []
keyed_lines lines p level (suc rounds) i =
    lines (child_number p i)
    ++ internal_key_line (u32 (level + 1)) (separator p i)
      ∷ keyed_lines lines p level rounds (i + 1)

-- The lines of an internal node and what is below it.
unfoldable pub node_lines : (lines : ℕ → List Line) (p : Page) (level : ℕ) → List Line
node_lines lines p level =
    let keys = word p internal_num_keys in
    internal_line level keys
    ∷ (if keys == 0 then [] else keyed_lines lines p level keys 0 ++ lines (child_number p keys))

-- The listing of a tree: a leaf's size and its keys; an internal node's number of keys, and the
-- children in order, with the keys between them. A node without keys shows no child.
unfoldable pub tree_lines : Pager → (height level n : ℕ) → List Line
unfolding page_of
tree_lines s zero level n =
    let p = page_of (s.pages n) in
    leaf_line level (word p leaf_num_cells) ∷ key_lines level (cells p)
tree_lines s (suc h) level n =
    node_lines (tree_lines s h (u32 (level + 1))) (page_of (s.pages n)) level

print_leaf_keys-IsLeaf :
    (s : Pager) (k : ℕ) (p : Page) (l : IsLeaf s k p) (level n i : ℕ)
    → i + n ≤ leaf_max_cells
    → print_leaf_keys n i k level s ≡ ok (key_lines level (cells_from p i n)) s
unfolding print_leaf_keys cells_from cell_at key_at
print_leaf_keys-IsLeaf s k p l level zero i h = refl
print_leaf_keys-IsLeaf s k p l level (suc n) i h =
    let next : i + 1 ≡ suc i = omega arith in
    rw (
      load32-ok k s l.cached (leaf_key i) (omega (arith, leaf_cell_fits i (omega arith))),
      next,
      print_leaf_keys-IsLeaf s k p l level n (suc i) (omega arith),
    )

child_number-last :
    (p : Page) → child_number p (word p internal_num_keys) ≡ word p internal_right_child
unfolding child_number
child_number-last p = rw (==_refl (word p internal_num_keys))

module _ (s : Pager) (n : ℕ) (p : Page) (d : IsInternal s n p) (print : ℕ → Cmd (List Line))
    (lines : ℕ → List Line) (level : ℕ)
    (prints : (i : ℕ)
      → i ≤ word p internal_num_keys
      → print (child_number p i) s ≡ ok (lines (child_number p i)) s)
    (small : (i : ℕ) → i ≤ word p internal_num_keys → child_number p i < 100) where
  print_children-keyed_lines :
      (rounds i : ℕ)
      → i + rounds ≤ word p internal_num_keys
      → print_children print rounds i n level s ≡ ok (keyed_lines lines p level rounds i) s
  unfolding print_children keyed_lines separator
  print_children-keyed_lines zero i h = refl
  print_children-keyed_lines (suc rounds) i h =
      let (o, at, number) = child_offset s n p i d (omega arith) (small i (omega arith)) in
      rw (
        at,
        number,
        prints i (omega arith),
        load32-ok n s d.cached (internal_key i)
            (omega (arith, internal_cell_fits i (omega (arith, d.few)))),
        print_children-keyed_lines rounds (i + 1) (omega arith),
      )

  print_last :
      print (word p internal_right_child) s
      ≡ ok (lines (child_number p (word p internal_num_keys))) s
  print_last =
      ap (λ (k : ℕ). print k s) (sym (child_number-last p))
      ∙ prints (word p internal_num_keys) (omega arith)

  print_internal-node_lines : print_internal print n level s ≡ ok (node_lines lines p level) s
  unfolding print_internal node_lines
  print_internal-node_lines = elim (Bool-cases (word p internal_num_keys == 0)) [
    | inl none_yet ↦ rw (load32-ok n s d.cached internal_num_keys (omega arith), none_yet)
    | inr keyed ↦ rw (
      load32-ok n s d.cached internal_num_keys (omega arith),
      keyed,
      print_children-keyed_lines (word p internal_num_keys) 0 (omega arith),
      load32-ok n s d.cached internal_right_child (omega arith),
      print_last,
    )
  ]

-- On a well-formed tree whose height the fuel exceeds, `btree_print` returns, changes nothing, and
-- prints the listing of the tree.
pub btree_print-tree_lines :
    (env : Env) (s : Pager) (height fuel level n : ℕ)
    → IsTree s height n
    → height < fuel
    → btree_print env fuel n level s ≡ ok (tree_lines s height level n) s
unfolding IsTree btree_print tree_lines page_of cells child_number
btree_print-tree_lines env s h zero level n tree enough = absurd (omega arith)
btree_print-tree_lines env s zero (suc fuel) level n (p, l) enough = rw (
  get_page-cached env n s l.small l.cached,
  node_get_type-leaf n s l.cached l.type,
  load32-ok n s l.cached leaf_num_cells (omega arith),
  print_leaf_keys-IsLeaf s n p l level (word p leaf_num_cells) 0 (omega (arith, l.few)),
  l.cached,
)
btree_print-tree_lines env s (suc h) (suc fuel) level n (p, d, rest) enough =
    rw
      (
        get_page-cached env n s d.small d.cached,
        node_get_type-internal n s d.cached d.type,
        d.cached,
      )
      (print_internal-node_lines s n p d (λ child. btree_print env fuel child (u32 (level + 1)))
        (tree_lines s h (u32 (level + 1))) level
        (λ i le.
          btree_print-tree_lines env s h fuel (u32 (level + 1)) (child_number p i) (rest i le)
            (omega arith))
        (λ i le. tree_small s h (child_number p i) (rest i le)))
