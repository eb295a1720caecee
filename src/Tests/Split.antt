-- ===== src/Tests/Split.antt =====
-- The split of a leaf with 13 cells, at a concrete page.
use gnaro.Base.{
  ℕ, zero, suc, ◌+◌, ◌*◌, ◌^◌, ◌≤◌, ◌<◌, ◌≡◌, refl, ◌∙◌, sym, inl, inr, arith, some, none, Bool,
  true, false, ltb, leb, ltb→lt, if◌then◌else◌, ◌||◌, ap, Bool-cases, ◌==◌, ==→eq,
}
use gnaro.Memory.{Pager, ok, put}
use gnaro.Memory.Bytes.{Page, word, set_word, blit, word_byte}
use gnaro.Memory.Laws.{update_self, update_ne}
use gnaro.Btree.Layout.{leaf_max_cells}
use gnaro.Btree.Leaf.{leaf_cell, Cursor, leaf_key, leaf_num_cells, leaf_next}
use gnaro.Btree.Leaf.View.{key_at, cells, IsPlace}
use gnaro.Btree.Insert.{leaf_split, leaf_split_and_insert}
use gnaro.Btree.Insert.SplitLeaf.{SplitState, leaf_split-SplitState}
use gnaro.Row.RoundTrip.{stored}
use gnaro.Btree.Root.{node_new_root}
use gnaro.Btree.Root.Tree.{TreeState, node_new_root-TreeState}
use gnaro.Btree.Insert.RootSplit.{RootSplitState, leaf_split_and_insert-RootSplitState}
use gnaro.Cursor.Descent.{IsLeaf}
use gnaro.Btree.Insert.Listing.{insert_sorted}
use gnaro.Table.TwoLevels.{IsSearchTree, leaf_split_and_insert-IsSearchTree}
use gnaro.Tests.Data.{env, user, blank, no_pages, reads}

-- A leaf with the root mark: the keys 2, 4, ..., `2 * n` in the first `n` cells.
abbrev with_keys : ℕ → Page
with_keys zero = set_word (set_word blank 0 257) leaf_num_cells 13
with_keys (suc n) = set_word (with_keys n) (leaf_key n) (2 * suc n)

unfoldable pub full_page : Page
full_page = with_keys 13

abbrev pub one_page : Pager
one_page = put 0 full_page (record no_pages { num_pages = 1 })

abbrev pub at_seven : Cursor
at_seven = record { page_num = 0; cell_num = 7; end_of_table = none }

-- The test holds for the numbers below `n`.
unfoldable pub all_below : (test : ℕ → Bool) → ℕ → Bool
all_below test zero = true
all_below test (suc n) = if test n then all_below test n else false

all_below-at : (test : ℕ → Bool) (n i : ℕ) → all_below test n ≡ true → i < n → test i ≡ true
unfolding all_below
all_below-at test zero i all lt = absurd (omega arith)
all_below-at test (suc n) i all lt = elim (Bool-cases (test n)) [
  | inl holds ↦ elim (Bool-cases (i == n)) [
    | inl same ↦ ap test (==→eq i n same) ∙ holds
    | inr other ↦ all_below-at test n i (shown holds) (ground arith)
  ]
  | inr fails ↦ absurd (refuted fails)
]
  where
    shown : test n ≡ true → all_below test n ≡ true
    shown holds = sym (ap (λ b. if b then all_below test n else false) holds) ∙ all

    refuted : test n ≡ false → ⊥
    refuted fails =
        let clash = sym all ∙ ap (λ b. if b then all_below test n else false) fails in cc

unfoldable low : ℕ → Bool
low i = ltb (key_at full_page i) 15

unfoldable high : ℕ → Bool
high i = ltb i 7 || leb 15 (key_at full_page i)

keys_low : all_below low 7 ≡ true
unfolding all_below low key_at full_page word set_word blit word_byte leaf_cell
keys_low = refl

keys_high : all_below high 13 ≡ true
unfolding all_below high key_at full_page word set_word blit word_byte leaf_cell
keys_high = refl

high-le : (i : ℕ) → 7 ≤ i → high i ≡ true → 15 ≤ key_at full_page i
unfolding high
high-le i le h = ground arith

-- 15 belongs behind the keys 2, 4, ..., 14.
full_page-IsPlace : IsPlace full_page leaf_max_cells 15 7
unfolding low
full_page-IsPlace = record {
  within = omega arith;
  below = λ i lt. ltb→lt (key_at full_page i) 15 (all_below-at low 7 i keys_low lt);
  above = λ i le lt. high-le i le (all_below-at high 13 i keys_high lt);
}

type_byte : full_page 0 ≡ 1
unfolding full_page set_word blit word_byte leaf_cell
type_byte = refl

pub count : word full_page leaf_num_cells ≡ leaf_max_cells
unfolding full_page word set_word blit word_byte leaf_cell
count = refl

pub next : word full_page leaf_next ≡ 0
unfolding full_page word set_word blit word_byte leaf_cell
next = refl

leaf_split-SplitState_example :
    (t : Pager) × (leaf_split env 1 at_seven 15 (user 15) one_page ≡ ok (1, key_at full_page 12) t)
    × SplitState full_page (user 15) 15 0 1 one_page t
leaf_split-SplitState_example =
    leaf_split-SplitState env 0 at_seven 15 (user 15) one_page full_page (omega arith) (omega arith)
      reads (update_self no_pages.pages 0 (some full_page)) type_byte count (omega (arith, next))
      full_page-IsPlace (omega arith) (omega arith)

root_byte : full_page 1 ≡ 1
unfolding full_page set_word blit word_byte leaf_cell
root_byte = refl

first_key : key_at full_page 0 ≡ 2
unfolding key_at full_page word set_word blit word_byte leaf_cell
first_key = refl

last_key : key_at full_page 12 ≡ 26
unfolding key_at full_page word set_word blit word_byte leaf_cell
last_key = refl

unfoldable small : ℕ → Bool
small i = ltb (key_at full_page i) (2 ^ 31)

keys_small : all_below small 13 ≡ true
unfolding all_below small key_at full_page word set_word blit word_byte leaf_cell
keys_small = refl

small-lt : (i : ℕ) → i < 13 → key_at full_page i < 2 ^ 31
unfolding small
small-lt i lt = ltb→lt (key_at full_page i) (2 ^ 31) (all_below-at small 13 i keys_small lt)

no_second_page : one_page.pages 1 ≡ none
no_second_page = update_ne no_pages.pages 0 1 (some full_page) (λ e. omega arith)

leaf_split_and_insert-RootSplitState_example :
    (t : Pager) × (leaf_split_and_insert env 1 0 at_seven 15 (user 15) one_page ≡ ok tt t)
    × RootSplitState full_page (record { key = 15; row = stored (user 15) }) 0 2 1 one_page t
leaf_split_and_insert-RootSplitState_example =
    leaf_split_and_insert-RootSplitState env 0 at_seven 15 (user 15) one_page full_page
      (omega arith) (omega arith) reads (update_self no_pages.pages 0 (some full_page))
      no_second_page type_byte root_byte count (omega (arith, next)) full_page-IsPlace small-lt
      (omega arith) (omega arith)

-- The keys ascend, and 15 is not among them.
unfoldable follows : ℕ → Bool
follows i = key_at full_page i == 2 * i + 2

keys_follow : all_below follows 13 ≡ true
unfolding all_below follows key_at full_page word set_word blit word_byte leaf_cell
keys_follow = refl

key_at-full_page : (i : ℕ) → i < 13 → key_at full_page i ≡ 2 * i + 2
unfolding follows
key_at-full_page i lt =
    ==→eq (key_at full_page i) (2 * i + 2) (all_below-at follows 13 i keys_follow lt)

full_page-IsLeaf : IsLeaf one_page 0 full_page
full_page-IsLeaf = record {
  small = omega arith;
  cached = update_self no_pages.pages 0 (some full_page);
  type = type_byte;
  few = omega (arith, count);
  ascending = λ i j less inside.
      omega (
        arith,
        key_at-full_page i (omega (arith, count)),
        key_at-full_page j (omega (arith, count)),
      );
}

-- The tree after the split.
pub grown :
    (t : Pager) × (leaf_split_and_insert env 1 0 at_seven 15 (user 15) one_page ≡ ok tt t)
    × IsSearchTree t 0 2 1
        (word full_page leaf_next)
        (insert_sorted (record { key = 15; row = stored (user 15) }) (cells full_page))
grown =
    leaf_split_and_insert-IsSearchTree env 0 at_seven 15 (user 15) one_page full_page (omega arith)
      (omega arith) reads full_page-IsLeaf no_second_page root_byte count (omega (arith, next))
      full_page-IsPlace small-lt (λ i lt e. omega (arith, key_at-full_page i lt)) (omega arith)
      (omega arith)

leaf_split_and_insert-IsSearchTree_example :
    (t : Pager) × (leaf_split_and_insert env 1 0 at_seven 15 (user 15) one_page ≡ ok tt t)
    × IsSearchTree t 0 2 1
        (word full_page leaf_next)
        (insert_sorted (record { key = 15; row = stored (user 15) }) (cells full_page))
leaf_split_and_insert-IsSearchTree_example =
    leaf_split_and_insert-IsSearchTree env 0 at_seven 15 (user 15) one_page full_page (omega arith)
      (omega arith) reads full_page-IsLeaf no_second_page root_byte count (omega (arith, next))
      full_page-IsPlace small-lt (λ i lt e. omega (arith, key_at-full_page i lt)) (omega arith)
      (omega arith)

-- The full leaf as the root, and another one for its right half.
abbrev two_pages : Pager
two_pages = put 1 full_page (record one_page { num_pages = 2 })

node_new_root-TreeState_example :
    (t : Pager) × (node_new_root env 1 0 1 two_pages ≡ ok tt t)
    × TreeState full_page full_page 0 2 (key_at full_page 12) 1 two_pages t
node_new_root-TreeState_example =
    node_new_root-TreeState env 0 0 1 12 two_pages full_page full_page (omega arith) (omega arith)
      (λ e. omega arith) (omega arith) reads
      (update_ne one_page.pages 1 0 (some full_page) (λ e. omega arith)
        ∙ update_self no_pages.pages 0 (some full_page))
      (update_self one_page.pages 1 (some full_page)) type_byte count (omega arith)
      (omega (arith, count)) (λ e. omega (arith, first_key)) (omega (arith, last_key))
