-- ===== src/Cursor/Descent.antt =====
-- The descent of `cursor_find_key` of src/cursor.c and `btree_node_internal_find` of src/btree.c
-- through a well-formed tree of any height.
use gnaro.Base.{
  ℕ, zero, suc, ◌≤◌, ◌<◌, ◌≡◌, inl, inr, some, arith, ◌==◌, ==→eq, if◌then◌else◌, Bool-cases,
}
use gnaro.Memory.{Pager, ok, load32}
use gnaro.Memory.Bytes.{Page, word}
use gnaro.Memory.Laws.{load8-ok, load32-ok}
use gnaro.Pager.{Env, pager_max_pages}
use gnaro.Pager.Cache.{get_page-cached}
use gnaro.Btree.Layout.{internal, leaf_max_cells}
use gnaro.Btree.Node.{node_get_type}
use gnaro.Btree.Leaf.{Cursor, leaf_num_cells, leaf_find}
use gnaro.Btree.Leaf.View.{IsPlace, node_get_type-leaf}
use gnaro.Btree.Leaf.View as Leaf
use gnaro.Btree.Leaf.Find.{leaf_find-IsPlace}
use gnaro.Btree.Internal.{
  internal_num_keys, internal_right_child, internal_cell, internal_child, internal_find,
}
use gnaro.Btree.Internal.View.{
  internal_page_cells, child_at, Ascending, IsChildPlace, internal_cell_fits,
}
use gnaro.Btree.Internal.Find.{internal_find_child-IsChildPlace, internal_child-branches}
use gnaro.Cursor.{cursor_find_key}

-- The page number of child `i`: the right child stands behind the last key.
unfoldable pub child_number : Page → ℕ → ℕ
child_number p i =
    if i == word p internal_num_keys then word p internal_right_child else child_at p i

-- An allocated leaf with at most 13 ascending keys.
pub record IsLeaf (s : Pager) (n : ℕ) (p : Page) : Type 0 where
  pub small : n < pager_max_pages
  pub cached : s.pages n ≡ some p
  pub type : p 0 ≡ 1
  pub few : word p leaf_num_cells ≤ leaf_max_cells
  pub ascending : Leaf.Ascending p (word p leaf_num_cells)

-- An allocated internal node whose keys fit the page and ascend.
pub record IsInternal (s : Pager) (n : ℕ) (p : Page) : Type 0 where
  pub small : n < pager_max_pages
  pub cached : s.pages n ≡ some p
  pub type : p 0 ≡ 0
  pub few : word p internal_num_keys ≤ internal_page_cells
  pub ascending : Ascending p (word p internal_num_keys)

-- The node on page `n` is the root of a tree in which all leaves are `height` levels down.
unfoldable pub IsTree : Pager → (height n : ℕ) → Type 0
IsTree s zero n = (p : Page) × IsLeaf s n p
IsTree s (suc h) n =
    (p : Page) × IsInternal s n p
    × ((i : ℕ) → i ≤ word p internal_num_keys → IsTree s h (child_number p i))

-- The pages from a node down to the leaf where a key belongs: at each level, the child that the keys
-- of the node assign to it.
pub data Descent (s : Pager) (key : ℕ) : ℕ → ℕ → Type 0 where
  arrived : (n : ℕ) → Descent s key n n
  down :
      (n m c : ℕ) (p : Page)
      → IsInternal s n p
      → IsChildPlace p (word p internal_num_keys) key c
      → Descent s key (child_number p c) m
      → Descent s key n m

-- The cursor stands on the key's place in the leaf where the key belongs.
pub record IsFound (s : Pager) (key n : ℕ) (cursor : Cursor) : Type 0 where
  pub page : Page
  pub leaf : IsLeaf s cursor.page_num page
  pub path : Descent s key n cursor.page_num
  pub place : IsPlace page (word page leaf_num_cells) key cursor.cell_num

pub tree_small : (s : Pager) (h n : ℕ) → IsTree s h n → n < pager_max_pages
unfolding IsTree
tree_small s zero n (p, l) = l.small
tree_small s (suc h) n (p, d, rest) = d.small

pub node_get_type-internal :
    (node : ℕ) (s : Pager) {p : Page}
    → s.pages node ≡ some p
    → p 0 ≡ 0
    → node_get_type node s ≡ ok internal s
unfolding node_get_type
node_get_type-internal node s here type = rw (load8-ok node s here 0 (omega arith), type)

-- The offset at which a child's page number is stored, and that number read there.
pub child_offset :
    (s : Pager) (n : ℕ) (p : Page) (c : ℕ)
    → IsInternal s n p
    → c ≤ word p internal_num_keys
    → child_number p c < pager_max_pages
    → (o : ℕ) × (internal_child n c s ≡ ok o s) × (load32 n o s ≡ ok (child_number p c) s)
unfolding child_number child_at
child_offset s n p c d within valid =
    let (_, last, _, inside, _) = internal_child-branches n s p c d.cached d.few in
    elim (Bool-cases (c == word p internal_num_keys)) [
      | inl e ↦
          let here = rw e at valid in
          (
            internal_right_child,
            last (==→eq c (word p internal_num_keys) e) (λ bad. omega arith),
            rw e (load32-ok n s d.cached internal_right_child (omega arith)),
          )
      | inr e ↦
          let here = rw e at valid in
          let lt : c < word p internal_num_keys = ground arith in
          (
            internal_cell c,
            inside lt (λ bad. omega arith),
            rw e (
                load32-ok n s d.cached (internal_cell c)
                  (omega (arith, internal_cell_fits c (omega (arith, d.few))))),
          )
    ]

leaf_find-IsFound :
    (env : Env) (s : Pager) (key n : ℕ) (p : Page)
    → IsLeaf s n p
    → (cursor : Cursor) × (leaf_find env key n s ≡ ok cursor s) × IsFound s key n cursor
leaf_find-IsFound env s key n p l =
    let (c, runs, place) = leaf_find-IsPlace env s p n key l.small l.cached l.few l.ascending in
    (_, runs, record { page = p; leaf = l; path = arrived n; place = place })

from_child :
    (s : Pager) (key n c : ℕ) (p : Page) (cursor : Cursor)
    → IsInternal s n p
    → IsChildPlace p (word p internal_num_keys) key c
    → IsFound s key (child_number p c) cursor
    → IsFound s key n cursor
from_child s key n c p cursor d place f = record {
  page = f.page;
  leaf = f.leaf;
  path = down n cursor.page_num c p d place f.path;
  place = f.place;
}

internal_find-IsFound :
    (env : Env) (s : Pager) (h fuel key n : ℕ)
    → IsTree s (suc h) n
    → h < fuel
    → (cursor : Cursor) × (internal_find env fuel key n s ≡ ok cursor s) × IsFound s key n cursor
unfolding IsTree internal_find
internal_find-IsFound env s h zero key n tree enough = absurd (omega arith)
internal_find-IsFound env s zero (suc fuel) key n (p, d, rest) enough =
    let (c, found, place) = internal_find_child-IsChildPlace n key s p d.cached d.few d.ascending in
    let (q, l) = rest c place.within in
    let (o, at, number) = child_offset s n p c d place.within l.small in
    let (cursor, runs, f) = leaf_find-IsFound env s key (child_number p c) q l in
    (
      cursor,
      rw (
        get_page-cached env n s d.small d.cached,
        found,
        at,
        number,
        get_page-cached env (child_number p c) s l.small l.cached,
        node_get_type-leaf (child_number p c) s l.cached l.type,
        runs,
      ),
      from_child s key n c p cursor d place f,
    )
internal_find-IsFound env s (suc h) (suc fuel) key n (p, d, rest) enough =
    let (c, found, place) = internal_find_child-IsChildPlace n key s p d.cached d.few d.ascending in
    let (q, e, below) = rest c place.within in
    let (o, at, number) = child_offset s n p c d place.within e.small in
    let (cursor, runs, f) =
      internal_find-IsFound env s h fuel key (child_number p c) (q, e, below) (omega arith) in
    (
      cursor,
      rw (
        get_page-cached env n s d.small d.cached,
        found,
        at,
        number,
        get_page-cached env (child_number p c) s e.small e.cached,
        node_get_type-internal (child_number p c) s e.cached e.type,
        runs,
      ),
      from_child s key n c p cursor d place f,
    )

-- In a well-formed tree whose height the fuel exceeds, the search for any key returns and changes
-- nothing. It goes down the children that the keys of the internal nodes assign to the key, and puts
-- the cursor on the key's place in the leaf at the end of that path.
pub cursor_find_key-IsFound :
    (env : Env) (s : Pager) (height fuel root key : ℕ)
    → IsTree s height root
    → height < fuel
    → (cursor : Cursor) × (cursor_find_key env fuel root key s ≡ ok cursor s)
      × IsFound s key root cursor
unfolding IsTree cursor_find_key
cursor_find_key-IsFound env s zero fuel root key (p, l) enough =
    let (cursor, runs, f) = leaf_find-IsFound env s key root p l in
    (
      cursor,
      rw (
        get_page-cached env root s l.small l.cached,
        node_get_type-leaf root s l.cached l.type,
        runs,
      ),
      f,
    )
cursor_find_key-IsFound env s (suc h) fuel root key (p, d, rest) enough =
    let (cursor, runs, f) =
      internal_find-IsFound env s h fuel key root (p, d, rest) (omega arith) in
    (
      cursor,
      rw (
        get_page-cached env root s d.small d.cached,
        node_get_type-internal root s d.cached d.type,
        runs,
      ),
      f,
    )
