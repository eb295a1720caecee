-- ===== src/Btree/Root/NewRoot.antt =====
-- `btree_node_new_root` of src/btree.c, where the root that was split is a leaf.
use gnaro.Base.{ℕ, suc, ◌+◌, ◌≤◌, ◌<◌, ◌≡◌, ◌≢◌, ◌∙◌, sym, ap, arith, some, true, ne→not_==, false}
use gnaro.Memory.{Pager, ok, put, page_size, store32}
use gnaro.Memory.Bytes.{Page, word, set_word, blit, word-ext}
use gnaro.Memory.Laws.{
  load32-put, store8-put, store8-ok, store32-put, store32-ok, memcpy-ok, update_ne, update_self,
}
use gnaro.Pager.{Env, pager_max_pages, pager_get_page}
use gnaro.Pager.Cache.{get_page-cached, get_unused_page_num_lem}
use gnaro.Btree.Layout.{leaf_max_cells, internal_invalid_page_num}
use gnaro.Btree.Node.{node_set_type, node_set_root, node_parent}
use gnaro.Btree.Leaf.{leaf_key, leaf_num_cells, leaf_cell}
use gnaro.Btree.Leaf.Init.{with_byte}
use gnaro.Btree.Leaf.View.{leaf_cell_exact, key_at, node_get_type-leaf}
use gnaro.Btree.Internal.{
  internal_init, internal_child, internal_num_keys, internal_right_child, internal_cell,
}
use gnaro.Btree.Root.{node_new_root, init_children, adopt_children, node_get_max_key}
use gnaro.Btree.Root.MaxKey.{node_get_max_key-leaf}
use gnaro.Btree.Root.Pages.{
  internal_page, marked_root, new_root, copied, marked_root_out, marked_root_keys, copied_byte,
}

internal_init-ok :
    (node : ℕ) (s : Pager) (p : Page)
    → s.pages node ≡ some p
    → internal_init node s ≡ ok tt (put node (internal_page p) s)
unfolding internal_init node_set_type node_set_root internal_page with_byte
internal_init-ok node s p here = rw (
  store8-ok node s here 0 0 (omega arith),
  store8-put node _ s 1 0 (omega arith),
  store32-put node _ s internal_num_keys 0 (omega arith),
  store32-put node _ s internal_right_child internal_invalid_page_num (omega arith),
)

init_children-leaf :
    (env : Env) (root right left : ℕ) (s : Pager) (p : Page)
    → s.pages root ≡ some p
    → p 0 ≡ 1
    → init_children env root right left s ≡ ok tt s
unfolding init_children
init_children-leaf env root right left s p here type = rw (node_get_type-leaf root s here type)

adopt_children-leaf :
    (env : Env) (fuel node num : ℕ) (s : Pager) (p : Page)
    → s.pages node ≡ some p
    → p 0 ≡ 1
    → adopt_children env fuel node num s ≡ ok tt s
unfolding adopt_children
adopt_children-leaf env fuel node num s p here type = rw (node_get_type-leaf node s here type)

copy_unmarked :
    (node : ℕ) (fresh p : Page) (s : Pager)
    → node_set_root node false (put node (blit fresh 0 p 0 page_size) s)
      ≡ ok tt (put node (copied fresh p) s)
unfolding node_set_root copied with_byte
copy_unmarked node fresh p s = store8-put node _ s 1 0 (omega arith)

root_marked :
    (node : ℕ) (p : Page) (s : Pager)
    → node_set_root node true (put node p s) ≡ ok tt (put node (with_byte p 1 1) s)
unfolding node_set_root with_byte
root_marked node p s = store8-put node p s 1 1 (omega arith)

root_counted :
    (node : ℕ) (p : Page) (s : Pager)
    → store32 node internal_num_keys 1 (put node (with_byte (internal_page p) 1 1) s)
      ≡ ok tt (put node (marked_root p) s)
unfolding marked_root
root_counted node p s = store32-put node _ s internal_num_keys 1 (omega arith)

-- The child's place in the new root. What is stored there is still the first key of the old leaf,
-- which the call takes for a page number.
internal_child-first :
    (node : ℕ) (p : Page) (s : Pager)
    → key_at p 0 ≢ internal_invalid_page_num
    → internal_child node 0 (put node (marked_root p) s) ≡ ok 14 (put node (marked_root p) s)
unfolding internal_child internal_cell key_at leaf_cell
internal_child-first node p s valid =
    let old : word (marked_root p) 14 ≡ word p 14 =
      word-ext (marked_root p) p 14 14 (λ k lt. marked_root_out p (14 + k) (omega arith)) in
    rw (
      load32-put node (marked_root p) s internal_num_keys (omega arith),
      marked_root_keys p,
      load32-put node (marked_root p) s 14 (omega arith),
      old,
      ne→not_== (word p 14) internal_invalid_page_num valid,
    )

-- The last key of the old root, read in its copy.
max_key-copied :
    (env : Env) (fuel left m : ℕ) (s : Pager) (fresh p : Page)
    → s.pages left ≡ some (copied fresh p)
    → p 0 ≡ 1
    → word p leaf_num_cells ≡ suc m
    → m < leaf_max_cells
    → node_get_max_key env (suc fuel) left s ≡ ok (key_at p m) s
unfolding key_at
max_key-copied env fuel left m s fresh p here type count few =
    node_get_max_key-leaf env fuel left m s (copied fresh p) here
      (copied_byte fresh p 0 (λ e. omega arith) (omega arith) ∙ type)
      (same leaf_num_cells (omega arith) (omega arith) ∙ count) few
    ∙ ap (λ k. ok k s)
        (same (leaf_key m) (omega (arith, leaf_cell_exact m (omega arith)))
          (omega (arith, leaf_cell_exact m (omega arith))))
  where
    same : (o : ℕ) → 6 ≤ o → o + 4 ≤ page_size → word (copied fresh p) o ≡ word p o
    same o low fits =
        word-ext (copied fresh p) p o o
          λ k lt. copied_byte fresh p (o + k) (λ e. omega arith) (omega arith)

module _ (env : Env) (fuel root right left m : ℕ) (s t : Pager) (p q fresh : Page)
    (apart : root ≢ right) (new_root_page : root ≢ left) (new_right_page : right ≢ left)
    (root_small : root < pager_max_pages) (right_small : right < pager_max_pages)
    (here : s.pages root ≡ some p) (there : s.pages right ≡ some q) (counted : s.num_pages ≡ left)
    (fetched : pager_get_page env left s ≡ ok left t)
    (kept : (k : ℕ) → k ≢ left → t.pages k ≡ s.pages k) (cached : t.pages left ≡ some fresh)
    (type : p 0 ≡ 1) (count : word p leaf_num_cells ≡ suc m) (few : m < leaf_max_cells)
    (valid : key_at p 0 ≢ internal_invalid_page_num) where
  -- The old root copied.
  unfoldable pub copy_made : Pager
  copy_made = put left (copied fresh p) t

  root_old : copy_made.pages root ≡ some p
  unfolding copy_made
  root_old =
      update_ne t.pages left root (some (copied fresh p)) new_root_page
      ∙ kept root new_root_page
      ∙ here

  -- The new root written.
  unfoldable pub root_made : Pager
  root_made = put root (new_root p left (key_at p m) right) copy_made

  left_copied : (r : Page) → (put root r copy_made).pages left ≡ some (copied fresh p)
  unfolding copy_made
  left_copied r =
      update_ne (put left (copied fresh p) t).pages root left (some r) (λ e. new_root_page (sym e))
      ∙ update_self t.pages left (some (copied fresh p))

  -- The parent of the left child written.
  unfoldable pub left_made : Pager
  left_made = put left (set_word (copied fresh p) node_parent root) root_made

  right_old : left_made.pages right ≡ some q
  unfolding left_made root_made copy_made
  right_old =
      update_ne _ left right _ new_right_page
      ∙ update_ne _ root right _ (λ e. apart (sym e))
      ∙ update_ne t.pages left right (some (copied fresh p)) new_right_page
      ∙ kept right new_right_page
      ∙ there

  unfoldable pub finished : Pager
  finished = put right (set_word q node_parent root) left_made

  pub node_new_root-finished : node_new_root env (suc fuel) root right s ≡ ok tt finished
  unfolding node_new_root finished left_made root_made copy_made new_root internal_cell
  node_new_root-finished = rw (
    get_page-cached env root s root_small here,
    get_page-cached env right s right_small there,
    get_unused_page_num_lem s left counted,
    fetched,
    init_children-leaf env root right left t p (kept root new_root_page ∙ here) type,
    memcpy-ok left root t cached (kept root new_root_page ∙ here) 0 0 page_size (omega arith)
        (omega arith),
    copy_unmarked left fresh p t,
    adopt_children-leaf env (suc fuel) left left copy_made (copied fresh p)
        (update_self t.pages left (some (copied fresh p)))
        (copied_byte fresh p 0 (λ e. omega arith) (omega arith) ∙ type),
    internal_init-ok root copy_made p root_old,
    root_marked root (internal_page p) copy_made,
    root_counted root p copy_made,
    internal_child-first root p copy_made valid,
    store32-put root (marked_root p) copy_made 14 left (omega arith),
    max_key-copied env fuel left m (put root (set_word (marked_root p) 14 left) copy_made) fresh p
        (left_copied (set_word (marked_root p) 14 left)) type count few,
    store32-put root (set_word (marked_root p) 14 left) copy_made 18 (key_at p m) (omega arith),
    store32-put root _ copy_made internal_right_child right (omega arith),
    store32-ok left root_made (left_copied (new_root p left (key_at p m) right)) node_parent root
        (omega arith),
    store32-ok right left_made right_old node_parent root (omega arith),
  )
