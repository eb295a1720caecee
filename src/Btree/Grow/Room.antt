-- ===== src/Btree/Grow/Room.antt =====
-- `btree_node_internal_insert` of src/btree.c into a node with room, over leaves.
use gnaro.Base.{
  ℕ, suc, ◌+◌, ◌-◌, ◌*◌, ◌^◌, ◌≤◌, ◌<◌, ◌≡◌, ◌≢◌, ◌∙◌, sym, ap, arith, some, lt→ltb, le→not_ltb,
}
use gnaro.Memory.{Pager, ok, put}
use gnaro.Memory.Bytes.{Page, word, set_word, word-set_word, word-set_word_out}
use gnaro.Memory.Laws.{store32-put, update_self, update_ne}
use gnaro.Pager.{Env}
use gnaro.Pager.Cache.{get_page-cached}
use gnaro.Btree.Layout.{internal_max_cells, internal_invalid_page_num}
use gnaro.Btree.Node.{u32}
use gnaro.Btree.Leaf.{leaf_num_cells}
use gnaro.Btree.Leaf.View.{key_at}
use gnaro.Btree.Internal.{internal_num_keys, internal_right_child, internal_cell, internal_child}
use gnaro.Btree.Internal.View.{child_at, internal_cell_exact}
use gnaro.Btree.Internal.Find.{internal_child-branches}
use gnaro.Btree.Root.{node_get_max_key}
use gnaro.Btree.Root.MaxKey.{node_get_max_key-leaf}
use gnaro.Btree.Grow.{internal_place}
use gnaro.Btree.Grow.Place.{
  moved, moved_none, word-moved_before, internal_make_room-put, placed, set_word_twice,
}
use gnaro.Cursor.Descent.{IsLeaf, IsInternal}

-- An internal node with room, whose right child is a leaf, and a leaf to put under it; neither leaf is
-- empty. The cells up to and including the one behind the last hold no invalid page number.
pub record HasRoom (s : Pager) (parent child : ℕ) (p q r : Page) (m k : ℕ) : Type 0 where
  pub node : IsInternal s parent p
  pub new : IsLeaf s child q
  pub last : IsLeaf s (word p internal_right_child) r
  pub new_cells : word q leaf_num_cells ≡ suc m
  pub last_cells : word r leaf_num_cells ≡ suc k
  pub new_fits : key_at q m < 2 ^ 32
  pub last_fits : key_at r k < 2 ^ 32
  pub room : word p internal_num_keys < internal_max_cells
  pub readable : (i : ℕ) → i ≤ word p internal_num_keys → child_at p i ≢ internal_invalid_page_num

same_page : (s : Pager) (n : ℕ) (p q : Page) → s.pages n ≡ some p → s.pages n ≡ some q → p ≡ q
same_page s n p q a b = cc

-- A leaf is no internal node.
leaf_apart :
    (s : Pager) (parent n : ℕ) (p q : Page) → IsInternal s parent p → IsLeaf s n q → n ≢ parent
leaf_apart s parent n p q d l e =
    let same : p 0 ≡ q 0 =
      ap (λ (t : Page). t 0) (same_page s n p q (ap s.pages e ∙ d.cached) l.cached) in
    omega arith

module _ (env : Env) (fuel : ℕ) (s : Pager) (parent child : ℕ) (p q r : Page) (m k : ℕ)
    (d : HasRoom s parent child p q r m k) where
  -- The page with its counter increased.
  abbrev pub counted : Page
  counted = set_word p internal_num_keys (word p internal_num_keys + 1)

  last_there : (t : Page) → (put parent t s).pages (word p internal_right_child) ≡ some r
  last_there t =
      update_ne s.pages parent (word p internal_right_child) (some t)
        (leaf_apart s parent (word p internal_right_child) p r d.node d.last)
      ∙ d.last.cached

  last_max :
      (t : Page)
      → node_get_max_key env (suc fuel) (word p internal_right_child) (put parent t s)
        ≡ ok (key_at r k) (put parent t s)
  last_max t =
      node_get_max_key-leaf env fuel (word p internal_right_child) k (put parent t s) r
        (last_there t) d.last.type d.last_cells (omega (arith, d.last.few, d.last_cells))

  child_cell :
      (t : Page) (i : ℕ)
      → word t internal_num_keys ≡ word p internal_num_keys + 1
      → i ≤ word p internal_num_keys
      → child_at t i ≡ child_at p i
      → internal_child parent i (put parent t s) ≡ ok (internal_cell i) (put parent t s)
  child_cell t i count le same =
      let (_, _, _, inside, _) =
        internal_child-branches parent (put parent t s) t i (update_self s.pages parent (some t))
          (omega (arith, d.room)) in
      inside (omega arith) (λ bad. d.readable i le (sym same ∙ bad))

  count_counted : word counted internal_num_keys ≡ word p internal_num_keys + 1
  count_counted =
      word-set_word p internal_num_keys (word p internal_num_keys + 1) (omega (arith, d.room))

  child_at-counted : (i : ℕ) → i ≤ word p internal_num_keys → child_at counted i ≡ child_at p i
  unfolding child_at
  child_at-counted i le = rw (internal_cell_exact i (omega (arith, d.room))) (
      word-set_word_out p internal_num_keys (word p internal_num_keys + 1) (14 + 8 * i)
        (omega arith))

  child_at-moved :
      (i j : ℕ) → i ≤ word p internal_num_keys → child_at (moved counted i j) i ≡ child_at p i
  child_at-moved i j le = before ∙ child_at-counted i le
    where
      before : child_at (moved counted i j) i ≡ child_at counted i
      before =
          unfold child_at in
          rw (internal_cell_exact i (omega (arith, d.room)))
            (word-moved_before counted i j (14 + 8 * i) (omega arith))

  pub wrap : u32 (word p internal_num_keys + 1) ≡ word p internal_num_keys + 1
  wrap = omega (arith, d.room)

  -- The cell behind the last, for the old right child, and the new right child.
  unfoldable pub grown_right : Page
  grown_right =
      set_word
        (placed p (word p internal_num_keys) (word p internal_num_keys) (key_at r k)
          (word p internal_right_child))
        internal_right_child child

  pub place_right :
      (c : ℕ)
      → key_at r k < key_at q m
      → internal_place env
          (suc fuel)
          parent
          child
          (key_at q m)
          c
          (word p internal_num_keys)
          (word p internal_right_child)
          (put parent counted s)
        ≡ ok tt (put parent grown_right s)
  unfolding internal_place grown_right placed
  place_right c larger =
      rw
        (
          get_page-cached env (word p internal_right_child) (put parent counted s) d.last.small
              (last_there counted),
          store32-put parent counted s internal_num_keys (u32 (word p internal_num_keys + 1))
              (omega arith),
          wrap,
          set_word_twice p internal_num_keys (word p internal_num_keys + 1),
          last_max counted,
          lt→ltb (key_at r k) (key_at q m) larger,
          child_cell counted (word p internal_num_keys) count_counted (omega arith)
              (child_at-counted (word p internal_num_keys) (omega arith)),
          internal_cell_exact (word p internal_num_keys) (omega (arith, d.room)),
          store32-put parent counted s (14 + 8 * word p internal_num_keys)
              (word p internal_right_child) (omega (arith, d.room)),
          last_max
              (set_word counted (14 + 8 * word p internal_num_keys) (word p internal_right_child)),
          store32-put parent _ s (14 + 8 * word p internal_num_keys + 4) (key_at r k)
              (omega (arith, d.room)),
          store32-put parent _ s internal_right_child child (omega arith),
        )
        (ap
          (λ (t : Page). ok tt (
            put parent
              (set_word
                (set_word
                  (set_word t (14 + 8 * word p internal_num_keys) (word p internal_right_child))
                  (14 + 8 * word p internal_num_keys + 4) (key_at r k))
                internal_right_child child)
              s))
          (sym nothing_moves))
    where
      nothing_moves :
          moved counted
            (word p internal_num_keys)
            (word p internal_num_keys - word p internal_num_keys)
          ≡ counted
      nothing_moves =
          let none_left : word p internal_num_keys - word p internal_num_keys ≡ 0 = omega arith in
          rw none_left (moved_none counted (word p internal_num_keys))

  pub place_cell :
      (c : ℕ)
      → c ≤ word p internal_num_keys
      → key_at q m ≤ key_at r k
      → internal_place env
          (suc fuel)
          parent
          child
          (key_at q m)
          c
          (word p internal_num_keys)
          (word p internal_right_child)
          (put parent counted s)
        ≡ ok tt (put parent (placed p (word p internal_num_keys) c (key_at q m) child) s)
  unfolding internal_place placed
  place_cell c within smaller = rw (
    get_page-cached env (word p internal_right_child) (put parent counted s) d.last.small
        (last_there counted),
    store32-put parent counted s internal_num_keys (u32 (word p internal_num_keys + 1))
        (omega arith),
    wrap,
    set_word_twice p internal_num_keys (word p internal_num_keys + 1),
    last_max counted,
    le→not_ltb (key_at r k) (key_at q m) smaller,
    internal_make_room-put (word p internal_num_keys - c) parent c counted s
        (omega (arith, d.room)),
    child_cell (moved counted c (word p internal_num_keys - c)) c
        (word-moved_before counted c (word p internal_num_keys - c) internal_num_keys (omega arith)
          ∙ count_counted)
        within (child_at-moved c (word p internal_num_keys - c) within),
    internal_cell_exact c (omega (arith, d.room)),
    store32-put parent _ s (14 + 8 * c) child (omega (arith, d.room)),
    store32-put parent _ s (14 + 8 * c + 4) (key_at q m) (omega (arith, d.room)),
  )
