-- ===== src/Btree/Leaf/Init.antt =====
-- `btree_node_leaf_init`: an empty leaf that is no root and has no sibling.
use gnaro.Base.{ℕ, ◌+◌, ◌≤◌, ◌<◌, ◌≡◌, ◌∙◌, inl, inr, ◌⊎◌, arith}
use gnaro.Memory.{Pager, ok, put}
use gnaro.Memory.Bytes.{
  Page, word, set_word, blit, blit_out, set_word_out, word-set_word, word-set_word_out,
  word-blit_out,
}
use gnaro.Memory.Laws.{store8-put, store32-put}
use gnaro.Btree.Node.{node_set_type, node_set_root}
use gnaro.Btree.Leaf.{leaf_init, leaf_num_cells, leaf_next}

-- A byte stored.
unfoldable pub with_byte : Page → ℕ → ℕ → Page
with_byte p o v = blit p o (λ _. v) 0 1

pub with_byte_out : (p : Page) (o v a : ℕ) → ((a < o) ⊎ (o + 1 ≤ a)) → with_byte p o v a ≡ p a
unfolding with_byte
with_byte_out p o v a h = blit_out p (λ _. v) o 0 1 a h

pub with_byte_at : (p : Page) (o v : ℕ) → with_byte p o v o ≡ v
unfolding with_byte blit
with_byte_at p o v = ground arith

pub word-with_byte : (p : Page) (o v u : ℕ) → o < u → word (with_byte p o v) u ≡ word p u
unfolding with_byte
word-with_byte p o v u h = word-blit_out p (λ _. v) o 0 1 u (inr (omega arith))

-- The page of a leaf that has just been initialised.
unfoldable pub leaf_page : Page → Page
leaf_page p = set_word (set_word (with_byte (with_byte p 0 1) 1 0) leaf_num_cells 0) leaf_next 0

pub leaf_init-put :
    (node : ℕ) (p : Page) (s : Pager)
    → leaf_init node (put node p s) ≡ ok tt (put node (leaf_page p) s)
unfolding leaf_init node_set_type node_set_root leaf_page with_byte
leaf_init-put node p s = rw (
  store8-put node p s 0 1 (omega arith),
  store8-put node _ s 1 0 (omega arith),
  store32-put node _ s leaf_num_cells 0 (omega arith),
  store32-put node _ s leaf_next 0 (omega arith),
)

pub leaf_page_type : (p : Page) → leaf_page p 0 ≡ 1
unfolding leaf_page
leaf_page_type p =
    set_word_out _ leaf_next 0 0 (inl (omega arith))
    ∙ set_word_out _ leaf_num_cells 0 0 (inl (omega arith))
    ∙ with_byte_out _ 1 0 0 (inl (omega arith))
    ∙ with_byte_at p 0 1

pub leaf_page_root : (p : Page) → leaf_page p 1 ≡ 0
unfolding leaf_page
leaf_page_root p =
    set_word_out _ leaf_next 0 1 (inl (omega arith))
    ∙ set_word_out _ leaf_num_cells 0 1 (inl (omega arith))
    ∙ with_byte_at _ 1 0

pub leaf_page_num_cells : (p : Page) → word (leaf_page p) leaf_num_cells ≡ 0
unfolding leaf_page
leaf_page_num_cells p =
    word-set_word_out _ leaf_next 0 leaf_num_cells (inl (omega arith))
    ∙ word-set_word _ leaf_num_cells 0 (omega arith)

pub leaf_page_next : (p : Page) → word (leaf_page p) leaf_next ≡ 0
unfolding leaf_page
leaf_page_next p = word-set_word _ leaf_next 0 (omega arith)
