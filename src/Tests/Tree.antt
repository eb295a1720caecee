-- ===== src/Tests/Tree.antt =====
-- The descent in a tree of a root and two leaves.
use gnaro.Base.{
  ℕ, ◌≤◌, ◌<◌, ◌≡◌, refl, ◌∙◌, arith, some, ◌==◌, ==→eq, Bool-cases, inl, inr, map, ◌++◌, [],
  length-append, sym,
}
use mathlib.Core.Path.{subst}
use gnaro.Memory.{Pager, ok, put}
use gnaro.Memory.Bytes.{Page, word, set_word, blit, word_byte}
use gnaro.Memory.Laws.{update_self, update_ne}
use gnaro.Btree.Leaf.{Cursor, leaf_key, leaf_num_cells, leaf_next, leaf_cell}
use gnaro.Btree.Leaf.View.{key_at, cells}
use gnaro.Btree.Internal.{internal_num_keys, internal_cell}
use gnaro.Btree.Internal.View.{child_at}
use gnaro.Cursor.{cursor_find_key}
use gnaro.Cursor.Descent.{
  IsTree, IsLeaf, IsInternal, IsFound, child_number, cursor_find_key-IsFound,
}
use gnaro.Database.{database_open}
use gnaro.Statement.Execute.{success, statement_execute_select}
use gnaro.Table.Select.{rows}
use gnaro.Btree.Print.{btree_print}
use gnaro.Table.PrintTree.{tree_lines, btree_print-tree_lines}
use gnaro.Table.Chain.{Chain, last, link}
use gnaro.Table.SelectTree.{Leftmost, execute_select-Chain}
use gnaro.Table.Session.{answers, apply_inserts, execute_inserts, length-cells}
use gnaro.Table.FirstSplit.{GoesOn, session-GoesOn}
use gnaro.Tests.Data.{env, blank, no_pages, user, count_up, empty_file, reads}

-- A leaf with two keys.
abbrev pub two_cells : (first second next : ℕ) → Page
two_cells first second next =
    set_word
      (set_word (set_word (set_word (set_word blank 0 1) leaf_num_cells 2) (leaf_key 0) first)
        (leaf_key 1) second)
      leaf_next next

unfoldable pub left_page : Page
left_page = two_cells 2 4 2

unfoldable pub right_page : Page
right_page = two_cells 6 8 0

-- The key 4 between the children 1 and 2.
unfoldable pub root_page : Page
root_page = set_word (set_word (set_word (set_word blank 6 1) 10 2) 14 1) 18 4

abbrev pub three_pages : Pager
three_pages = put 2 right_page (put 1 left_page (put 0 root_page no_pages))

-- What the bytes of a leaf say.
abbrev pub IsTwoCells : Page → (first second next : ℕ) → Type 0
IsTwoCells p first second next =
    (p 0 ≡ 1)
    × (word p leaf_num_cells ≡ 2)
    × (key_at p 0 ≡ first)
    × (key_at p 1 ≡ second)
    × (word p leaf_next ≡ next)

left_bytes : IsTwoCells left_page 2 4 2
unfolding key_at left_page word set_word blit word_byte leaf_cell
left_bytes = (refl, refl, refl, refl, refl)

pub right_bytes : IsTwoCells right_page 6 8 0
unfolding key_at right_page word set_word blit word_byte leaf_cell
right_bytes = (refl, refl, refl, refl, refl)

pub root_header : (root_page 0 ≡ 0) × (word root_page internal_num_keys ≡ 1)
unfolding root_page word set_word blit word_byte
root_header = (refl, refl)

children : (child_number root_page 0 ≡ 1) × (child_number root_page 1 ≡ 2)
unfolding child_number root_page word set_word blit word_byte child_at internal_cell
children = (refl, refl)

two_cells-IsLeaf :
    (n : ℕ) (p : Page) (first second next : ℕ)
    → n < 3
    → three_pages.pages n ≡ some p
    → IsTwoCells p first second next
    → first < second
    → IsLeaf three_pages n p
two_cells-IsLeaf n p first second next lt here (type, count, key0, key1, _) order = record {
  small = omega arith;
  cached = here;
  type = type;
  few = omega (arith, count);
  ascending = λ i j less inside.
      let low : i ≡ 0 = omega (arith, count) in
      let high : j ≡ 1 = omega (arith, count) in rw (low, high, key0, key1) order;
}

pub root-IsInternal : IsInternal three_pages 0 root_page
root-IsInternal = record {
  small = omega arith;
  cached =
      update_ne (put 1 left_page (put 0 root_page no_pages)).pages 2 0 (some right_page)
        (λ e. omega arith)
      ∙ update_ne (put 0 root_page no_pages).pages 1 0 (some left_page) (λ e. omega arith)
      ∙ update_self no_pages.pages 0 (some root_page);
  type = root_header.0;
  few = omega (arith, root_header.1);
  ascending =
      λ i j le inside. let same : i ≡ j = omega (arith, root_header.1) in rw same (omega arith);
}

left-IsLeaf : IsLeaf three_pages 1 left_page
left-IsLeaf =
    two_cells-IsLeaf 1 left_page 2 4 2 (omega arith)
      (update_ne (put 1 left_page (put 0 root_page no_pages)).pages 2 1 (some right_page)
          (λ e. omega arith)
        ∙ update_self (put 0 root_page no_pages).pages 1 (some left_page))
      left_bytes (omega arith)

pub right-IsLeaf : IsLeaf three_pages 2 right_page
right-IsLeaf =
    two_cells-IsLeaf 2 right_page 6 8 0 (omega arith)
      (update_self (put 1 left_page (put 0 root_page no_pages)).pages 2 (some right_page))
      right_bytes (omega arith)

three_pages-IsTree : IsTree three_pages 1 0
unfolding IsTree
three_pages-IsTree = (
  root_page,
  root-IsInternal,
  λ i le. elim (Bool-cases (i == 0)) [
    | inl first ↦ rw (==→eq i 0 first, children.0) (left_page, left-IsLeaf)
    | inr other ↦
        let second : i ≡ 1 = let bound : i ≤ 1 = omega (arith, root_header.1) in ground arith in
        rw (second, children.1) (right_page, right-IsLeaf)
  ],
)

cursor_find_key-IsFound_example :
    (cursor : Cursor) × (cursor_find_key env 2 0 3 three_pages ≡ ok cursor three_pages)
    × IsFound three_pages 3 0 cursor
cursor_find_key-IsFound_example =
    cursor_find_key-IsFound env three_pages 1 2 0 3 three_pages-IsTree (omega arith)

three_pages-Leftmost : Leftmost three_pages 1 0 1
unfolding Leftmost
three_pages-Leftmost = (root_page, root-IsInternal.cached, children.0)

three_pages-Chain : Chain three_pages 1 (cells left_page ++ cells right_page)
three_pages-Chain =
    let (_, left_count, _, _, left_next) = left_bytes in
    let (_, right_count, _, _, right_next) = right_bytes in
    let linked : Chain three_pages (word left_page leaf_next) (cells right_page) =
      subst (λ n. Chain three_pages n (cells right_page)) (sym left_next)
        (last 2 (cells right_page) right_page right-IsLeaf (omega (arith, right_count)) right_next
          refl) in
    link 1 (cells left_page ++ cells right_page) left_page (cells right_page) left-IsLeaf
      (omega (arith, left_count)) (λ e. omega (arith, left_next)) linked refl

execute_select-Chain_example :
    statement_execute_select env 9 0 three_pages
    ≡ ok (rows (cells left_page ++ cells right_page), success) three_pages
execute_select-Chain_example =
    execute_select-Chain env three_pages 1 9 0 1 (cells left_page ++ cells right_page)
      three_pages-IsTree three_pages-Leftmost three_pages-Chain (omega arith)
      (omega (
        arith,
        length-append (cells left_page) (cells right_page),
        length-cells left_page,
        length-cells right_page,
        left_bytes.1,
        right_bytes.1,
      ))

-- Thirteen inserts of the ids 1 to 13, and one of the id 20, which splits the root.
session-GoesOn_example :
    (s t : Pager) × (database_open env (some empty_file) ≡ some (ok tt s))
    × (execute_inserts env 50 (map user (count_up 1 13)) s
        ≡ ok (answers (map user (count_up 1 13)) []) t)
    × GoesOn env 50 (user 20) t (apply_inserts (map user (count_up 1 13)) [])
session-GoesOn_example =
    session-GoesOn env 49 empty_file (map user (count_up 1 13)) (user 20) refl reads (omega arith)
      (omega arith) (omega arith) (omega arith)

btree_print-tree_lines_example :
    btree_print env 2 0 0 three_pages ≡ ok (tree_lines three_pages 1 0 0) three_pages
btree_print-tree_lines_example =
    btree_print-tree_lines env three_pages 1 2 0 0 three_pages-IsTree (omega arith)
