-- ===== src/Btree/Internal/Find.antt =====
-- The binary search of `btree_node_internal_find_child`, and the access to a child.
use gnaro.Base.{
  ℕ, zero, suc, ◌+◌, ◌-◌, ◌/◌, ◌≤◌, ◌<◌, ◌≡◌, ◌≢◌, refl, inl, inr, some, arith, leb, ◌==◌, lt→ltb,
  le→not_ltb, ne→not_==, ==_refl, Bool-cases, ==→eq, leb→le, not_leb→lt,
}
use gnaro.Memory.{Pager, ok, exited, load32}
use gnaro.Memory.Bytes.{Page, word}
use gnaro.Memory.Laws.{load32-ok}
use gnaro.Btree.Layout.{internal_invalid_page_num}
use gnaro.Btree.Node.{u32}
use gnaro.Btree.Internal.{
  internal_key, internal_cell, internal_num_keys, internal_right_child, find_child_loop,
  internal_find_child, internal_child,
}
use gnaro.Btree.Internal.View.{
  internal_page_cells, separator, child_at, Ascending, IsChildPlace, internal_cell_fits,
}

module _ (node : ℕ) (s : Pager) {p : Page} (here : s.pages node ≡ some p) (n key : ℕ)
    (few : n ≤ internal_page_cells) (ascending : Ascending p n) where
  load_separator : (i : ℕ) → i < n → load32 node (internal_key i) s ≡ ok (separator p i) s
  unfolding separator
  load_separator i h =
      load32-ok node s here (internal_key i) (omega (arith, internal_cell_fits i (omega arith)))

  find_child_loop-IsChildPlace :
      (fuel lo hi : ℕ)
      → lo ≤ hi
      → hi ≤ n
      → hi - lo < fuel
      → ((i : ℕ) → i < lo → separator p i < key)
      → ((i : ℕ) → hi ≤ i → i < n → key ≤ separator p i)
      → (c : ℕ) × (find_child_loop fuel node key lo hi s ≡ ok c s) × IsChildPlace p n key c
  unfolding find_child_loop
  find_child_loop-IsChildPlace zero lo hi order fits fuel below above = absurd (omega arith)
  find_child_loop-IsChildPlace (suc k) lo hi order fits fuel below above =
      elim (Bool-cases (lo == hi)) [
        | inl e ↦ (
          lo,
          rw e refl,
          record {
            within = omega arith;
            below = below;
            above = λ i a b. above i (rw (==→eq lo hi e) at a) b;
          },
        )
        | inr e ↦
            let m = u32 (lo + hi) / 2 in
            let lower : lo ≤ m = ground arith in
            let upper : m < hi = ground arith in
            let next : u32 (m + 1) ≡ suc m = omega arith in
            rw (e, load_separator m (omega arith))
              (elim (Bool-cases (leb key (separator p m))) [
                | inl less ↦ rw less (
                    find_child_loop-IsChildPlace k lo m lower (omega arith) (omega arith) below
                      (λ i a b.
                        let le = leb→le key (separator p m) less in
                        let up = ascending m i a b in omega arith))
                | inr more ↦
                    rw (more, next)
                      (find_child_loop-IsChildPlace k (suc m) hi (omega arith) fits (omega arith)
                        (λ i a.
                          let lt = not_leb→lt key (separator p m) more in
                          let up = ascending i m (omega arith) (omega arith) in omega arith)
                        above)
              ])
      ]

-- On an allocated internal node whose separators ascend and fit the page, the search for the child
-- of a key returns, changes nothing, and finds the index that splits the separators at the key.
pub internal_find_child-IsChildPlace :
    (node key : ℕ) (s : Pager) (p : Page)
    → s.pages node ≡ some p
    → word p internal_num_keys ≤ internal_page_cells
    → Ascending p (word p internal_num_keys)
    → (c : ℕ) × (internal_find_child node key s ≡ ok c s)
      × IsChildPlace p (word p internal_num_keys) key c
unfolding internal_find_child
internal_find_child-IsChildPlace node key s p here few ascending =
    let n = word p internal_num_keys in
    let (c, runs, place) =
      find_child_loop-IsChildPlace node s here n key few ascending (n + 1) 0 n (omega arith)
        (omega arith) (omega arith) (λ i h. absurd (omega arith)) (λ i a b. absurd (omega arith)) in
    (c, rw (load32-ok node s here internal_num_keys (omega arith), runs) refl, place)

-- What `btree_node_internal_child` answers: where the number of child `i` is stored, the right
-- child's for the last; and it exits for an index beyond that, or where no page number is stored.
abbrev pub ChildAnswer : ℕ → Pager → Page → ℕ → Type 0
ChildAnswer node s p i =
    (word p internal_num_keys < i → internal_child node i s ≡ exited)
    × (i ≡ word p internal_num_keys
        → word p internal_right_child ≢ internal_invalid_page_num
        → internal_child node i s ≡ ok internal_right_child s)
    × (i ≡ word p internal_num_keys
        → word p internal_right_child ≡ internal_invalid_page_num
        → internal_child node i s ≡ exited)
    × (i < word p internal_num_keys
        → child_at p i ≢ internal_invalid_page_num
        → internal_child node i s ≡ ok (internal_cell i) s)
    × (i < word p internal_num_keys
        → child_at p i ≡ internal_invalid_page_num
        → internal_child node i s ≡ exited)

-- On an allocated node with at most 510 keys, every branch of `btree_node_internal_child`: an index
-- beyond the number of keys exits; that number itself gives the right child, and exits if it is the
-- invalid page number; a smaller index gives its cell, and exits if that holds the invalid number.
pub internal_child-branches :
    (node : ℕ) (s : Pager) (p : Page) (i : ℕ)
    → s.pages node ≡ some p
    → word p internal_num_keys ≤ internal_page_cells
    → ChildAnswer node s p i
unfolding internal_child child_at
internal_child-branches node s p i here few = (
  λ beyond. rw (count, lt→ltb (word p internal_num_keys) i beyond),
  λ last valid. rw (
    count,
    le→not_ltb (word p internal_num_keys) i (omega arith),
    last,
    ==_refl (word p internal_num_keys),
    right,
    ne→not_== _ _ valid,
  ),
  λ last invalid. rw (
    count,
    le→not_ltb (word p internal_num_keys) i (omega arith),
    last,
    ==_refl (word p internal_num_keys),
    right,
    invalid,
  ),
  λ inside valid. rw (
    count,
    le→not_ltb (word p internal_num_keys) i (omega arith),
    ne→not_== i (word p internal_num_keys) (omega arith),
    cell inside,
    ne→not_== _ _ valid,
  ),
  λ inside invalid. rw (
    count,
    le→not_ltb (word p internal_num_keys) i (omega arith),
    ne→not_== i (word p internal_num_keys) (omega arith),
    cell inside,
    invalid,
  ),
)
  where
    count : load32 node internal_num_keys s ≡ ok (word p internal_num_keys) s
    count = load32-ok node s here internal_num_keys (omega arith)

    right : load32 node internal_right_child s ≡ ok (word p internal_right_child) s
    right = load32-ok node s here internal_right_child (omega arith)

    cell :
        i < word p internal_num_keys
        → load32 node (internal_cell i) s ≡ ok (word p (internal_cell i)) s
    cell inside =
        load32-ok node s here (internal_cell i) (omega (arith, internal_cell_fits i (omega arith)))
