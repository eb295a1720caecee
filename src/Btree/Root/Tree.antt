-- ===== src/Btree/Root/Tree.antt =====
-- `btree_node_new_root` of src/btree.c over a root that was a leaf, as a whole.
use gnaro.Base.{ℕ, suc, ◌^◌, ◌≤◌, ◌<◌, ◌≡◌, ◌≢◌, refl, ◌∙◌, sym, arith, some, false}
use gnaro.Memory.{Pager, ok}
use gnaro.Memory.Bytes.{Page, word, set_word}
use gnaro.Memory.Laws.{update_ne, update_self}
use gnaro.Pager.{Env, pager_max_pages}
use gnaro.Pager.Cache.{get_page-Fetched}
use gnaro.Btree.Layout.{leaf_max_cells, internal_invalid_page_num}
use gnaro.Btree.Node.{node_parent}
use gnaro.Btree.Leaf.{leaf_num_cells}
use gnaro.Btree.Leaf.View.{key_at}
use gnaro.Btree.Root.{node_new_root}
use gnaro.Btree.Root.Pages.{TwoLeaves, pages-TwoLeaves, new_root, copied}
use gnaro.Btree.Root.NewRoot.{copy_made, root_made, left_made, finished, node_new_root-finished}

-- What the pager has afterwards: the root, and under it the leaf on page `left`, which is new, and
-- the one on page `right`; the other pages and the file are as before.
pub record TreeState (p q : Page) (root left key right : ℕ) (s t : Pager) : Type 0 where
  pub root_page : Page
  pub left_page : Page
  pub right_page : Page
  pub root_cached : t.pages root ≡ some root_page
  pub left_cached : t.pages left ≡ some left_page
  pub right_cached : t.pages right ≡ some right_page
  pub tree : TwoLeaves p q root left key right root_page left_page right_page
  pub others : (k : ℕ) → k ≢ root → k ≢ left → k ≢ right → t.pages k ≡ s.pages k
  pub file : t.file_descriptor ≡ s.file_descriptor

-- With the root a leaf `p` that has cells, another leaf `q` for its right half, a page left to
-- allocate and reading that does not fail, the call returns unless the first key of the old root is
-- the number of no page. Then the root is an internal node with one key, the largest of the old
-- root, between a new page that has the cells of `p`, without the root mark, and the page of `q`;
-- both have the root as their parent and keep their cells and their successors.
pub node_new_root-TreeState :
    (env : Env) (fuel root right m : ℕ) (s : Pager) (p q : Page)
    → root < s.num_pages
    → right < s.num_pages
    → root ≢ right
    → s.num_pages < pager_max_pages
    → ((o : ℕ) → env.read_fails o ≡ false)
    → s.pages root ≡ some p
    → s.pages right ≡ some q
    → p 0 ≡ 1
    → word p leaf_num_cells ≡ suc m
    → m < leaf_max_cells
    → word q leaf_num_cells ≤ leaf_max_cells
    → key_at p 0 ≢ internal_invalid_page_num
    → key_at p m < 2 ^ 32
    → (t : Pager) × (node_new_root env (suc fuel) root right s ≡ ok tt t)
      × TreeState p q root s.num_pages (key_at p m) right s t
unfolding finished left_made root_made copy_made
node_new_root-TreeState env fuel root right m s p q root_counted right_counted apart room reads here
      there type count few few' valid key_fits =
    let left = s.num_pages in
    let (t, runs, f) = get_page-Fetched env left s room reads in
    let root_left : root ≢ left = λ e. omega arith in
    let right_left : right ≢ left = λ e. omega arith in
    (
      finished env fuel root right left m s t p q f.page apart root_left right_left (omega arith)
          (omega arith) here there refl runs f.others f.cached type count few valid,
      node_new_root-finished env fuel root right left m s t p q f.page apart root_left right_left
          (omega arith) (omega arith) here there refl runs f.others f.cached type count few valid,
      record {
        root_page = new_root p left (key_at p m) right;
        left_page = set_word (copied f.page p) node_parent root;
        right_page = set_word q node_parent root;
        root_cached =
            update_ne _ right root _ apart
            ∙ update_ne _ left root _ root_left
            ∙ update_self _ root _;
        left_cached = update_ne _ right left _ (λ e. right_left (sym e)) ∙ update_self _ left _;
        right_cached = update_self _ right _;
        tree =
            pages-TwoLeaves p q f.page root left (key_at p m) right (omega arith) (omega arith)
              key_fits (omega arith) (omega arith) few';
        others = λ k ne_root ne_left ne_right.
            update_ne _ right k _ ne_right
            ∙ update_ne _ left k _ ne_left
            ∙ update_ne _ root k _ ne_root
            ∙ update_ne _ left k _ ne_left
            ∙ f.others k ne_left;
        file = f.file;
      },
    )
