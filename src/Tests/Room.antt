-- ===== src/Tests/Room.antt =====
-- A new child under the root of a tree of a root and two leaves.
use gnaro.Base.{ℕ, ◌≤◌, ◌<◌, ◌≡◌, refl, ◌∙◌, arith, some, ◌==◌, ==→eq, Bool-cases, inl, inr}
use gnaro.Memory.{Pager, ok, put}
use gnaro.Memory.Bytes.{Page, word, set_word, blit, word_byte}
use gnaro.Memory.Laws.{update_self, update_ne}
use gnaro.Btree.Leaf.{leaf_cell}
use gnaro.Btree.Leaf.View.{key_at}
use gnaro.Btree.Internal.{internal_num_keys, internal_right_child, internal_cell}
use gnaro.Btree.Internal.View.{child_at, IsChildPlace}
use gnaro.Btree.Grow.{internal_split_and_insert, internal_insert_with}
use gnaro.Btree.Grow.Room.{HasRoom}
use gnaro.Btree.Grow.Child.{IsAdded, internal_insert_with-IsAdded}
use gnaro.Cursor.Descent.{IsLeaf, IsInternal}
use gnaro.Tests.Data.{env}
use gnaro.Tests.Tree.{
  two_cells, IsTwoCells, root_page, right_page, three_pages, root_header, root-IsInternal,
  right-IsLeaf, right_bytes,
}

unfoldable new_page : Page
new_page = two_cells 10 12 0

new_bytes : IsTwoCells new_page 10 12 0
unfolding key_at new_page word set_word blit word_byte leaf_cell
new_bytes = (refl, refl, refl, refl, refl)

abbrev state : Pager
state = put 3 new_page three_pages

kept : (n : ℕ) (p : Page) → n < 3 → three_pages.pages n ≡ some p → state.pages n ≡ some p
kept n p lt here = update_ne three_pages.pages 3 n (some new_page) (λ e. omega arith) ∙ here

node : IsInternal state 0 root_page
node = record {
  small = root-IsInternal.small;
  cached = kept 0 root_page (omega arith) root-IsInternal.cached;
  type = root-IsInternal.type;
  few = root-IsInternal.few;
  ascending = root-IsInternal.ascending;
}

right_number : word root_page internal_right_child ≡ 2
unfolding root_page word set_word blit word_byte
right_number = refl

child_numbers : (child_at root_page 0 ≡ 1) × (child_at root_page 1 ≡ 0)
unfolding child_at root_page word set_word blit word_byte internal_cell
child_numbers = (refl, refl)

last : IsLeaf state 2 right_page
last = record {
  small = right-IsLeaf.small;
  cached = kept 2 right_page (omega arith) right-IsLeaf.cached;
  type = right-IsLeaf.type;
  few = right-IsLeaf.few;
  ascending = right-IsLeaf.ascending;
}

new : IsLeaf state 3 new_page
new = record {
  small = omega arith;
  cached = update_self three_pages.pages 3 (some new_page);
  type = new_bytes.0;
  few = omega (arith, new_bytes.1);
  ascending = λ i j less inside.
      let low : i ≡ 0 = omega (arith, new_bytes.1) in
      let high : j ≡ 1 = omega (arith, new_bytes.1) in
      rw (low, high, new_bytes.2, new_bytes.3) (omega arith);
}

has_room : HasRoom state 0 3 root_page new_page right_page 1 1
has_room = record {
  node = node;
  new = new;
  last = rw right_number last;
  new_cells = new_bytes.1;
  last_cells = right_bytes.1;
  new_fits = omega (arith, new_bytes.3);
  last_fits = omega (arith, right_bytes.3);
  room = omega (arith, root_header.1);
  readable = λ i le bad. elim (Bool-cases (i == 0)) [
    | inl first ↦
        let at : i ≡ 0 = ==→eq i 0 first in
        let here = rw at at bad in omega (arith, child_numbers.0)
    | inr other ↦
        let bound : i ≤ 1 = omega (arith, root_header.1) in
        let second : i ≡ 1 = ground arith in
        let here = rw second at bad in omega (arith, child_numbers.1)
  ];
}

internal_insert_with-IsAdded_example :
    (c : ℕ) × IsChildPlace root_page (word root_page internal_num_keys) (key_at new_page 1) c
    × ((t : Page) × (internal_insert_with env (internal_split_and_insert env 1 0) 1 0 3 state
          ≡ ok tt (put 0 t state))
        × IsAdded root_page t c (key_at right_page 1) (key_at new_page 1) 3)
internal_insert_with-IsAdded_example =
    internal_insert_with-IsAdded env (internal_split_and_insert env 1 0) 0 state 0 3 root_page
      new_page right_page 1 1 has_room
