-- ===== src/Btree/Grow/Place.antt =====
-- The page of an internal node after `btree_node_internal_insert` of src/btree.c, cell by cell.
use gnaro.Base.{
  ℕ, zero, suc, ◌+◌, ◌-◌, ◌*◌, ◌^◌, ◌≤◌, ◌<◌, ◌≡◌, ◌∙◌, sym, ap, inl, inr, arith, ltb, leb, ◌&&◌,
  ◌⊎◌, if◌then◌else◌, fun_ext,
}
use gnaro.Memory.{Pager, ok, put}
use gnaro.Memory.Bytes.{
  Page, word, set_word, blit, word-ext, set_word_out, word-set_word, word-set_word_out,
}
use gnaro.Memory.Laws.{memcpy-put}
use gnaro.Btree.Internal.{internal_num_keys, internal_right_child}
use gnaro.Btree.Internal.View.{separator, child_at, internal_page_cells, internal_cell_exact}
use gnaro.Btree.Grow.{internal_make_room}

-- The page with `k` cells from `c` on moved one to the right.
unfoldable pub moved : Page → (c k : ℕ) → Page
moved p c k a = if leb (14 + 8 * (c + 1)) a && ltb a (14 + 8 * (c + 1 + k)) then p (a - 8) else p a

pub moved_none : (p : Page) (c : ℕ) → moved p c 0 ≡ p
unfolding moved
moved_none p c = fun_ext λ a. ground arith

-- A word in front of the cells that move.
pub word-moved_before :
    (p : Page) (c k o : ℕ) → o + 4 ≤ 14 + 8 * (c + 1) → word (moved p c k) o ≡ word p o
unfolding moved
word-moved_before p c k o h = word-ext _ p o o λ j lt. ground arith

moved-blit :
    (p : Page) (c k : ℕ)
    → moved (blit p (14 + 8 * (c + suc k)) p (14 + 8 * (c + k)) 8) c k ≡ moved p c (suc k)
unfolding moved blit
moved-blit p c k = fun_ext λ a. ground arith

pub internal_make_room-put :
    (k node c : ℕ) (p : Page) (s : Pager)
    → c + k < internal_page_cells
    → internal_make_room k node c (put node p s) ≡ ok tt (put node (moved p c k) s)
unfolding internal_make_room
internal_make_room-put zero node c p s h = ap (λ q. ok tt (put node q s)) (sym (moved_none p c))
internal_make_room-put (suc k) node c p s h =
    rw
      (
        internal_cell_exact (c + suc k) (omega arith),
        internal_cell_exact (c + k) (omega arith),
        memcpy-put node p s (14 + 8 * (c + suc k)) (14 + 8 * (c + k)) 8 (omega arith) (omega arith),
      )
      (internal_make_room-put k node c _ s (omega arith)
        ∙ ap (λ q. ok tt (put node q s)) (moved-blit p c k))

-- The page `q` is the page `p` with its `n` cells and one more in place `c`, of the key and the child
-- given, and with the right child given.
pub record IsPlaced (p q : Page) (n c key child right_child : ℕ) : Type 0 where
  pub count : word q internal_num_keys ≡ n + 1
  pub right : word q internal_right_child ≡ right_child
  pub key_there : separator q c ≡ key
  pub child_there : child_at q c ≡ child
  pub keys_below : (i : ℕ) → i < c → separator q i ≡ separator p i
  pub children_below : (i : ℕ) → i < c → child_at q i ≡ child_at p i
  pub keys_above : (i : ℕ) → c ≤ i → i < n → separator q (suc i) ≡ separator p i
  pub children_above : (i : ℕ) → c ≤ i → i < n → child_at q (suc i) ≡ child_at p i
  pub header : (a : ℕ) → a < 6 → q a ≡ p a

-- The page that the stores of a new cell leave: the count, the moved cells, the child, the key.
unfoldable pub placed : Page → (n c key child : ℕ) → Page
placed p n c key child =
    set_word (set_word (moved (set_word p internal_num_keys (n + 1)) c (n - c)) (14 + 8 * c) child)
      (14 + 8 * c + 4) key

module _ (p : Page) (n c key child : ℕ) (within : c ≤ n) (room : n < 509) (key_fits : key < 2 ^ 32)
    (child_fits : child < 2 ^ 32) where
  placed_out :
      (a : ℕ)
      → ((a < 14 + 8 * c) ⊎ (14 + 8 * c + 8 ≤ a))
      → placed p n c key child a ≡ moved (set_word p internal_num_keys (n + 1)) c (n - c) a
  unfolding placed
  placed_out a far =
      set_word_out _ (14 + 8 * c + 4) key a (omega arith)
      ∙ set_word_out _ (14 + 8 * c) child a (omega arith)

  near : (a : ℕ) → ((a < 6) ⊎ (10 ≤ a)) → set_word p internal_num_keys (n + 1) a ≡ p a
  near a low = set_word_out p internal_num_keys (n + 1) a low

  placed_below : (a : ℕ) → a < 14 + 8 * c → ((a < 6) ⊎ (10 ≤ a)) → placed p n c key child a ≡ p a
  unfolding moved
  placed_below a low out = let kept = near a (omega arith) in placed_out a (inl low) ∙ ground arith

  placed_above : (a : ℕ) → 14 + 8 * c ≤ a → a < 14 + 8 * n → placed p n c key child (a + 8) ≡ p a
  unfolding moved
  placed_above a low high =
      let kept = near a (omega arith) in
      let back : a + 8 - 8 ≡ a = omega arith in
      placed_out (a + 8) (inr (omega arith)) ∙ ground (arith, back)

  word-placed_below :
      (o : ℕ) → 14 ≤ o → o + 4 ≤ 14 + 8 * c → word (placed p n c key child) o ≡ word p o
  word-placed_below o low high =
      word-ext _ p o o λ k lt. placed_below (o + k) (omega arith) (omega arith)

  word-placed_above :
      (o o' : ℕ)
      → o' ≡ o + 8
      → 14 + 8 * c ≤ o
      → o + 4 ≤ 14 + 8 * n
      → word (placed p n c key child) o' ≡ word p o
  word-placed_above o o' e low high = word-ext _ p o' o λ k lt.
      ap (placed p n c key child) (omega arith) ∙ placed_above (o + k) (omega arith) (omega arith)

  header_word :
      (o : ℕ)
      → o + 4 ≤ 14
      → word (placed p n c key child) o ≡ word (set_word p internal_num_keys (n + 1)) o
  unfolding placed moved
  header_word o low =
      word-set_word_out _ (14 + 8 * c + 4) key o (omega arith)
      ∙ word-set_word_out _ (14 + 8 * c) child o (omega arith)
      ∙ word-ext _ (set_word p internal_num_keys (n + 1)) o o (λ k lt. ground arith)

  pub placed-IsPlaced :
      IsPlaced p (placed p n c key child) n c key child (word p internal_right_child)
  unfolding separator child_at
  placed-IsPlaced = record {
    count =
        header_word internal_num_keys (omega arith)
        ∙ word-set_word p internal_num_keys (n + 1) (omega arith);
    right =
        header_word internal_right_child (omega arith)
        ∙ word-set_word_out p internal_num_keys (n + 1) internal_right_child (omega arith);
    key_there =
        rw (internal_cell_exact c (omega arith))
          (unfold placed in word-set_word _ (14 + 8 * c + 4) key key_fits);
    child_there = rw (internal_cell_exact c (omega arith)) (
        unfold placed in
        word-set_word_out _ (14 + 8 * c + 4) key (14 + 8 * c) (omega arith)
        ∙ word-set_word _ (14 + 8 * c) child child_fits);
    keys_below = λ i lt.
        rw (internal_cell_exact i (omega arith))
          (word-placed_below (14 + 8 * i + 4) (omega arith) (omega arith));
    children_below = λ i lt.
        rw (internal_cell_exact i (omega arith))
          (word-placed_below (14 + 8 * i) (omega arith) (omega arith));
    keys_above = λ i low lt.
        rw (internal_cell_exact i (omega arith), internal_cell_exact (suc i) (omega arith))
          (word-placed_above (14 + 8 * i + 4) (14 + 8 * suc i + 4) (omega arith) (omega arith)
            (omega arith));
    children_above = λ i low lt.
        rw (internal_cell_exact i (omega arith), internal_cell_exact (suc i) (omega arith))
          (word-placed_above (14 + 8 * i) (14 + 8 * suc i) (omega arith) (omega arith)
            (omega arith));
    header = λ a lt. placed_below a (omega arith) (inl lt);
  }

-- A new right child leaves the cells alone.
pub IsPlaced-right :
    (p q : Page) (n c key child old right_child : ℕ)
    → IsPlaced p q n c key child old
    → n < 509
    → c ≤ n
    → right_child < 2 ^ 32
    → IsPlaced p (set_word q internal_right_child right_child) n c key child right_child
unfolding separator child_at
IsPlaced-right p q n c key child old right_child placed room within fits = record {
  count =
      word-set_word_out q internal_right_child right_child internal_num_keys (omega arith)
      ∙ placed.count;
  right = word-set_word q internal_right_child right_child fits;
  key_there = kept_key c (omega arith) ∙ placed.key_there;
  child_there = kept_child c (omega arith) ∙ placed.child_there;
  keys_below = λ i lt. kept_key i (omega arith) ∙ placed.keys_below i lt;
  children_below = λ i lt. kept_child i (omega arith) ∙ placed.children_below i lt;
  keys_above = λ i low lt. kept_key (suc i) (omega arith) ∙ placed.keys_above i low lt;
  children_above = λ i low lt. kept_child (suc i) (omega arith) ∙ placed.children_above i low lt;
  header = λ a lt.
      set_word_out q internal_right_child right_child a (inl (omega arith)) ∙ placed.header a lt;
}
  where
    kept_key :
        (i : ℕ)
        → i ≤ 509
        → separator (set_word q internal_right_child right_child) i ≡ separator q i
    kept_key i le =
        unfold separator in
        rw (internal_cell_exact i (omega arith))
          (word-set_word_out q internal_right_child right_child (14 + 8 * i + 4) (omega arith))

    kept_child :
        (i : ℕ) → i ≤ 509 → child_at (set_word q internal_right_child right_child) i ≡ child_at q i
    kept_child i le =
        unfold child_at in
        rw (internal_cell_exact i (omega arith))
          (word-set_word_out q internal_right_child right_child (14 + 8 * i) (omega arith))

pub set_word_twice : (p : Page) (o v : ℕ) → set_word (set_word p o v) o v ≡ set_word p o v
unfolding set_word blit
set_word_twice p o v = fun_ext λ a. ground arith
