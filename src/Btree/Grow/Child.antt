-- ===== src/Btree/Grow/Child.antt =====
-- What `btree_node_internal_insert` of src/btree.c makes of a node with room, over leaves.
use gnaro.Base.{
  ℕ, suc, ◌+◌, ◌≤◌, ◌<◌, ◌≡◌, ◌∙◌, inl, inr, arith, ltb, ◌⊎◌, lt→not_leb, ne→not_==, Bool-cases,
}
use gnaro.Memory.{Pager, ok, put, Cmd}
use gnaro.Memory.Bytes.{Page, word, word-set_word_out}
use gnaro.Memory.Laws.{load32-put, load32-ok, store32-ok}
use gnaro.Pager.{Env}
use gnaro.Pager.Cache.{get_page-cached}
use gnaro.Btree.Layout.{internal_max_cells, internal_invalid_page_num}
use gnaro.Btree.Leaf.View.{key_at}
use gnaro.Btree.Internal.{internal_num_keys, internal_right_child, internal_find_child}
use gnaro.Btree.Internal.View.{IsChildPlace}
use gnaro.Btree.Internal.Find.{internal_find_child-IsChildPlace}
use gnaro.Btree.Root.MaxKey.{node_get_max_key-leaf}
use gnaro.Btree.Grow.{internal_place, internal_insert_with}
use gnaro.Btree.Grow.Place.{IsPlaced, placed, placed-IsPlaced, IsPlaced-right}
use gnaro.Btree.Grow.Room.{HasRoom, counted, wrap, grown_right, place_right, place_cell}

module _ (env : Env) (fuel : ℕ) (s : Pager) (parent child : ℕ) (p q r : Page) (m k : ℕ)
    (d : HasRoom s parent child p q r m k) where
  grown_right-IsPlaced :
      IsPlaced p
        (grown_right env fuel s parent child p q r m k d)
        (word p internal_num_keys)
        (word p internal_num_keys)
        (key_at r k)
        (word p internal_right_child)
        child
  unfolding grown_right
  grown_right-IsPlaced =
      IsPlaced-right p _ (word p internal_num_keys) (word p internal_num_keys) (key_at r k)
        (word p internal_right_child) (word p internal_right_child) child
        (placed-IsPlaced p (word p internal_num_keys) (word p internal_num_keys) (key_at r k)
          (word p internal_right_child) (omega arith) (omega (arith, d.room)) d.last_fits
          (omega (arith, d.last.small)))
        (omega (arith, d.room)) (omega arith) (omega (arith, d.new.small))

  to_place :
      (split : (parent_page_num child_page_num : ℕ) → Cmd (Unit {0})) (c : ℕ)
      → internal_find_child parent (key_at q m) s ≡ ok c s
      → internal_insert_with env split (suc fuel) parent child s
        ≡ internal_place env
            (suc fuel)
            parent
            child
            (key_at q m)
            c
            (word p internal_num_keys)
            (word p internal_right_child)
            (put parent (counted env fuel s parent child p q r m k d) s)
  unfolding internal_insert_with
  to_place split c finds = rw (
    get_page-cached env parent s d.node.small d.node.cached,
    get_page-cached env child s d.new.small d.new.cached,
    node_get_max_key-leaf env fuel child m s q d.new.cached d.new.type d.new_cells
        (omega (arith, d.new.few, d.new_cells)),
    finds,
    load32-ok parent s d.node.cached internal_num_keys (omega arith),
    (wrap env fuel s parent child p q r m k d),
    store32-ok parent s d.node.cached internal_num_keys (word p internal_num_keys + 1)
        (omega arith),
    lt→not_leb internal_max_cells (word p internal_num_keys) d.room,
    load32-put parent (counted env fuel s parent child p q r m k d) s internal_right_child
        (omega arith),
    word-set_word_out p internal_num_keys (word p internal_num_keys + 1) internal_right_child
        (omega arith),
    ne→not_== (word p internal_right_child) internal_invalid_page_num (omega (arith, d.last.small)),
  )

-- Where the new child goes, with the key that it brings: behind the last one, which gets a cell with
-- the largest key of its leaf, or into a cell of its own.
pub IsAdded : (p t : Page) (c right_max child_max child : ℕ) → Type 0
IsAdded p t c right_max child_max child =
    ((right_max < child_max)
      × IsPlaced p t (word p internal_num_keys) (word p internal_num_keys) right_max
          (word p internal_right_child) child)
    ⊎ ((child_max ≤ right_max)
        × IsPlaced p t (word p internal_num_keys) c child_max child (word p internal_right_child))

-- On an internal node with room, over leaves that are not empty, where no cell holds the invalid page
-- number, the one behind the last included, `btree_node_internal_insert` returns, whatever the
-- function for a full node is, and changes only the page of the node. A child whose largest key is
-- larger than the right child's becomes the right child, and the old one gets the last cell, with its
-- own largest key; any other child gets a cell at the index that splits the keys at its largest
-- key. The other cells stay in order, and the number of keys grows by one.
pub internal_insert_with-IsAdded :
    (env : Env) (split : (parent_page_num child_page_num : ℕ) → Cmd (Unit {0})) (fuel : ℕ)
    (s : Pager) (parent child : ℕ) (p q r : Page) (m k : ℕ)
    → HasRoom s parent child p q r m k
    → (c : ℕ) × IsChildPlace p (word p internal_num_keys) (key_at q m) c
      × ((t : Page) × (internal_insert_with env split (suc fuel) parent child s
            ≡ ok tt (put parent t s))
          × IsAdded p t c (key_at r k) (key_at q m) child)
unfolding IsAdded
internal_insert_with-IsAdded env split fuel s parent child p q r m k d =
    let (c, finds, place) =
      internal_find_child-IsChildPlace parent (key_at q m) s p d.node.cached d.node.few
        d.node.ascending in
    let starts = to_place env fuel s parent child p q r m k d split c finds in
    (
      c,
      place,
      elim (Bool-cases (ltb (key_at r k) (key_at q m))) [
        | inl larger ↦
            let lt : key_at r k < key_at q m = ground arith in
            (
              grown_right env fuel s parent child p q r m k d,
              starts ∙ place_right env fuel s parent child p q r m k d c lt,
              inl (lt, grown_right-IsPlaced env fuel s parent child p q r m k d),
            )
        | inr smaller ↦
            let le : key_at q m ≤ key_at r k = ground arith in
            (
              placed p (word p internal_num_keys) c (key_at q m) child,
              starts ∙ place_cell env fuel s parent child p q r m k d c place.within le,
              inr (
                le,
                placed-IsPlaced p (word p internal_num_keys) c (key_at q m) child place.within
                    (omega (arith, d.room)) d.new_fits (omega (arith, d.new.small)),
              ),
            )
      ],
    )
