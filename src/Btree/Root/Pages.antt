-- ===== src/Btree/Root/Pages.antt =====
-- The three pages that `btree_node_new_root` of src/btree.c leaves, for a root that was a leaf.
use gnaro.Base.{ℕ, ◌+◌, ◌*◌, ◌^◌, ◌≤◌, ◌<◌, ◌≡◌, ◌≢◌, ◌∙◌, sym, ap, inl, inr, arith}
use gnaro.Memory.{page_size}
use gnaro.Memory.Bytes.{
  Page, word, set_word, blit, blit_in, word-ext, set_word_out, word-set_word, word-set_word_out,
}
use gnaro.Btree.Layout.{leaf_max_cells, internal_invalid_page_num}
use gnaro.Btree.Node.{node_parent}
use gnaro.Btree.Leaf.{leaf_num_cells, leaf_next}
use gnaro.Btree.Leaf.Init.{with_byte, with_byte_out, with_byte_at}
use gnaro.Btree.Leaf.View.{cells, cell_at, cells_from}
use gnaro.Btree.Internal.{internal_num_keys, internal_right_child, internal_cell}
use gnaro.Btree.Internal.View.{separator, child_at}
use gnaro.Btree.Insert.Cells.{cell_at-ext}
use gnaro.Btree.Insert.Listing.{cells_from-tabulate, tabulate-ext}

-- `btree_node_internal_init` on a page.
unfoldable pub internal_page : Page → Page
internal_page p =
    set_word (set_word (with_byte (with_byte p 0 0) 1 0) internal_num_keys 0) internal_right_child
      internal_invalid_page_num

-- The root before its child, its key and its right child are stored.
unfoldable pub marked_root : Page → Page
marked_root p = set_word (with_byte (internal_page p) 1 1) internal_num_keys 1

unfoldable pub new_root : Page → (left key right : ℕ) → Page
new_root p left key right =
    set_word (set_word (set_word (marked_root p) 14 left) 18 key) internal_right_child right

-- The copy of the old root.
unfoldable pub copied : (fresh p : Page) → Page
copied fresh p = with_byte (blit fresh 0 p 0 page_size) 1 0

-- Above the header, stores into the header are not seen.
pub marked_root_out : (p : Page) (a : ℕ) → 14 ≤ a → marked_root p a ≡ p a
unfolding marked_root internal_page
marked_root_out p a far =
    set_word_out _ internal_num_keys 1 a (inr (omega arith))
    ∙ with_byte_out _ 1 1 a (inr (omega arith))
    ∙ set_word_out _ internal_right_child internal_invalid_page_num a (inr (omega arith))
    ∙ set_word_out _ internal_num_keys 0 a (inr (omega arith))
    ∙ with_byte_out _ 1 0 a (inr (omega arith))
    ∙ with_byte_out p 0 0 a (inr (omega arith))

pub marked_root_keys : (p : Page) → word (marked_root p) internal_num_keys ≡ 1
unfolding marked_root
marked_root_keys p = word-set_word _ internal_num_keys 1 (omega arith)

pub copied_byte : (fresh p : Page) (a : ℕ) → a ≢ 1 → a < page_size → copied fresh p a ≡ p a
unfolding copied
copied_byte fresh p a ne small =
    with_byte_out _ 1 0 a (ground arith)
    ∙ ap (blit fresh 0 p 0 page_size) (omega arith)
    ∙ blit_in fresh p 0 0 page_size a small
    ∙ ap p (omega arith)

-- Pages that agree from the counter on list the same cells.
pub cells-same :
    (p q : Page)
    → word p leaf_num_cells ≤ leaf_max_cells
    → ((a : ℕ) → 6 ≤ a → a < page_size → q a ≡ p a)
    → cells q ≡ cells p
unfolding cells
cells-same p q few same =
    let count : word q leaf_num_cells ≡ word p leaf_num_cells =
      word-ext q p leaf_num_cells leaf_num_cells
        (λ k lt. same (leaf_num_cells + k) (omega arith) (omega arith)) in
    ap (cells_from q 0) count
    ∙ cells_from-tabulate q 0 (word p leaf_num_cells)
    ∙ tabulate-ext (cell_at q) (cell_at p) 0 0 (word p leaf_num_cells) agree
    ∙ sym (cells_from-tabulate p 0 (word p leaf_num_cells))
  where
    agree :
        (a b : ℕ)
        → 0 ≤ a
        → a < 0 + word p leaf_num_cells
        → a + 0 ≡ b + 0
        → cell_at q a ≡ cell_at p b
    agree a b low lt e =
        let e' : a ≡ b = omega arith in
        cell_at-ext q p a a (omega arith) (omega arith)
          (λ k small. same (14 + 297 * a + k) (omega arith) (omega arith))
        ∙ ap (cell_at p) e'

-- A tree of two leaves: the root `r` with one key, and the leaves `l` and `m` under it, which have
-- the cells and the successors of `p` and `q`.
pub record TwoLeaves (p q : Page) (root left key right : ℕ) (r l m : Page) : Type 0 where
  pub root_type : r 0 ≡ 0
  pub root_mark : r 1 ≡ 1
  pub num_keys : word r internal_num_keys ≡ 1
  pub left_child : child_at r 0 ≡ left
  pub between : separator r 0 ≡ key
  pub right_child : word r internal_right_child ≡ right
  pub left_body : (a : ℕ) → 6 ≤ a → a < page_size → l a ≡ p a
  pub left_cells : cells l ≡ cells p
  pub left_type : l 0 ≡ p 0
  pub left_mark : l 1 ≡ 0
  pub left_parent : word l node_parent ≡ root
  pub left_next : word l leaf_next ≡ word p leaf_next
  pub right_body : (a : ℕ) → 6 ≤ a → a < page_size → m a ≡ q a
  pub right_cells : cells m ≡ cells q
  pub right_header : (a : ℕ) → a < 2 → m a ≡ q a
  pub right_parent : word m node_parent ≡ root
  pub right_next : word m leaf_next ≡ word q leaf_next

module _ (p q fresh : Page) (root left key right : ℕ) (root_fits : root < 2 ^ 32)
    (left_fits : left < 2 ^ 32) (key_fits : key < 2 ^ 32) (right_fits : right < 2 ^ 32)
    (few : word p leaf_num_cells ≤ leaf_max_cells)
    (few' : word q leaf_num_cells ≤ leaf_max_cells) where
  -- A byte in front of the counters of the new root is that of before the last three stores.
  root_byte :
      (a v : ℕ) → a < 2 → with_byte (internal_page p) 1 1 a ≡ v → new_root p left key right a ≡ v
  unfolding new_root marked_root
  root_byte a v h e =
      set_word_out _ internal_right_child right a (inl (omega arith))
      ∙ set_word_out _ 18 key a (inl (omega arith))
      ∙ set_word_out _ 14 left a (inl (omega arith))
      ∙ set_word_out _ internal_num_keys 1 a (inl (omega arith))
      ∙ e

  type_byte : with_byte (internal_page p) 1 1 0 ≡ 0
  unfolding internal_page
  type_byte =
      with_byte_out _ 1 1 0 (inl (omega arith))
      ∙ set_word_out _ internal_right_child internal_invalid_page_num 0 (inl (omega arith))
      ∙ set_word_out _ internal_num_keys 0 0 (inl (omega arith))
      ∙ with_byte_out _ 1 0 0 (inl (omega arith))
      ∙ with_byte_at p 0 0

  -- What lies behind the parent in the left leaf.
  left_byte : (a : ℕ) → 6 ≤ a → a < page_size → set_word (copied fresh p) node_parent root a ≡ p a
  left_byte a low lt =
      set_word_out (copied fresh p) node_parent root a (inr (omega arith))
      ∙ copied_byte fresh p a (λ e. omega arith) lt

  right_byte : (a : ℕ) → 6 ≤ a → a < page_size → set_word q node_parent root a ≡ q a
  right_byte a low lt = set_word_out q node_parent root a (inr (omega arith))

  pub pages-TwoLeaves :
      TwoLeaves p q root left key right
        (new_root p left key right)
        (set_word (copied fresh p) node_parent root)
        (set_word q node_parent root)
  unfolding new_root separator child_at internal_cell copied
  pages-TwoLeaves = record {
    root_type = root_byte 0 0 (omega arith) type_byte;
    root_mark = root_byte 1 1 (omega arith) (with_byte_at _ 1 1);
    num_keys =
        word-set_word_out _ internal_right_child right internal_num_keys (inl (omega arith))
        ∙ word-set_word_out _ 18 key internal_num_keys (inl (omega arith))
        ∙ word-set_word_out _ 14 left internal_num_keys (inl (omega arith))
        ∙ marked_root_keys p;
    left_child =
        word-set_word_out _ internal_right_child right 14 (inr (omega arith))
        ∙ word-set_word_out _ 18 key 14 (inl (omega arith))
        ∙ word-set_word _ 14 left left_fits;
    between =
        word-set_word_out _ internal_right_child right 18 (inr (omega arith))
        ∙ word-set_word _ 18 key key_fits;
    right_child = word-set_word _ internal_right_child right right_fits;
    left_body = left_byte;
    left_cells = cells-same p (set_word (copied fresh p) node_parent root) few left_byte;
    left_type =
        set_word_out (copied fresh p) node_parent root 0 (inl (omega arith))
        ∙ copied_byte fresh p 0 (λ e. omega arith) (omega arith);
    left_mark =
        set_word_out (copied fresh p) node_parent root 1 (inl (omega arith)) ∙ with_byte_at _ 1 0;
    left_parent = word-set_word _ node_parent root root_fits;
    left_next =
        word-ext _ p leaf_next leaf_next
          λ k lt. left_byte (leaf_next + k) (omega arith) (omega arith);
    right_body = right_byte;
    right_cells = cells-same q (set_word q node_parent root) few' right_byte;
    right_header = λ a lt. set_word_out q node_parent root a (inl (omega arith));
    right_parent = word-set_word q node_parent root root_fits;
    right_next = word-set_word_out q node_parent root leaf_next (inr (omega arith));
  }
