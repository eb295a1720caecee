-- ===== src/Btree/Leaf/Find.antt =====
-- The binary search in a leaf returns the place of the key.
use gnaro.Base.{
  ℕ, zero, suc, ◌+◌, ◌-◌, ◌/◌, ◌≤◌, ◌<◌, ◌≡◌, refl, inl, inr, some, none, arith, ltb, ◌==◌,
  Bool-cases, ==→eq, ltb→lt,
}
use gnaro.Memory.{Pager, ok, load32}
use gnaro.Memory.Bytes.{Page, word}
use gnaro.Memory.Laws.{load32-ok}
use gnaro.Pager.{Env, pager_max_pages}
use gnaro.Pager.Cache.{get_page-cached}
use gnaro.Btree.Layout.{leaf_max_cells}
use gnaro.Btree.Node.{u32}
use gnaro.Btree.Leaf.{leaf_key, leaf_num_cells, leaf_find_loop, leaf_find}
use gnaro.Btree.Leaf.View.{key_at, Ascending, IsPlace, leaf_cell_fits}

module _ (node : ℕ) (s : Pager) {p : Page} (here : s.pages node ≡ some p) (n key : ℕ)
    (few : n ≤ leaf_max_cells) (ascending : Ascending p n) where
  load_key : (i : ℕ) → i < n → load32 node (leaf_key i) s ≡ ok (key_at p i) s
  unfolding key_at
  load_key i h = load32-ok node s here (leaf_key i) (omega (arith, leaf_cell_fits i (omega arith)))

  -- The keys on either side of cell `m`.
  upto : (m : ℕ) → m < n → key_at p m < key → (i : ℕ) → i < suc m → key_at p i < key
  upto m h lt i below = elim (Bool-cases (i == m)) [
    | inl e ↦ rw (==→eq i m e) lt
    | inr e ↦ let before = ascending i m (ground arith) h in omega arith
  ]

  from : (m : ℕ) → m < n → key < key_at p m → (i : ℕ) → m ≤ i → i < n → key ≤ key_at p i
  from m h lt i above inside = elim (Bool-cases (i == m)) [
    | inl e ↦ rw (==→eq i m e) (omega arith)
    | inr e ↦ let after = ascending m i (ground arith) inside in omega arith
  ]

  found : (m : ℕ) → m < n → key ≡ key_at p m → IsPlace p n key m
  found m h e = record {
    within = omega arith;
    below = λ i lt. let before = ascending i m lt h in omega arith;
    above = λ i le inside. elim (Bool-cases (i == m)) [
      | inl same ↦ rw (==→eq i m same) (omega arith)
      | inr other ↦ let after = ascending m i (ground arith) inside in omega arith
    ];
  }

  -- With the keys below `lo` smaller and those from `hi` on not, the loop ends at the key's place.
  leaf_find_loop-IsPlace :
      (fuel lo hi : ℕ)
      → lo ≤ hi
      → hi ≤ n
      → hi - lo < fuel
      → ((i : ℕ) → i < lo → key_at p i < key)
      → ((i : ℕ) → hi ≤ i → i < n → key ≤ key_at p i)
      → (c : ℕ) × (leaf_find_loop fuel node key lo hi s ≡ ok c s) × IsPlace p n key c
  unfolding leaf_find_loop
  leaf_find_loop-IsPlace zero lo hi order fits fuel below above = absurd (omega arith)
  leaf_find_loop-IsPlace (suc k) lo hi order fits fuel below above = elim (Bool-cases (hi == lo)) [
    | inl e ↦ (
      lo,
      rw e refl,
      record {
        within = omega arith;
        below = below;
        above = λ i a b. above i (rw (==→eq hi lo e) a) b;
      },
    )
    | inr e ↦
        let m = u32 (lo + hi) / 2 in
        let lower : lo ≤ m = ground arith in
        let upper : m < hi = ground arith in
        let next : u32 (m + 1) ≡ suc m = omega arith in
        rw (e, load_key m (omega arith))
          (elim (Bool-cases (key == key_at p m)) [
            | inl hit ↦ (m, rw hit refl, found m (omega arith) (==→eq key (key_at p m) hit))
            | inr miss ↦ rw miss (elim (Bool-cases (ltb key (key_at p m))) [
              | inl less ↦ rw less (
                  leaf_find_loop-IsPlace k lo m lower (omega arith) (omega arith) below
                    (from m (omega arith) (ltb→lt key (key_at p m) less)))
              | inr more ↦
                  rw (more, next)
                    (leaf_find_loop-IsPlace k (suc m) hi (omega arith) fits (omega arith)
                      (upto m (omega arith) (ground arith)) above)
            ])
          ])
  ]

-- The search in an allocated leaf page with at most 13 ascending keys returns, changes nothing, and
-- puts the cursor on the key's place in that page: the keys before it are smaller, and those from
-- it on are not.
pub leaf_find-IsPlace :
    (env : Env) (s : Pager) (p : Page) (page_num key : ℕ)
    → page_num < pager_max_pages
    → s.pages page_num ≡ some p
    → word p leaf_num_cells ≤ leaf_max_cells
    → Ascending p (word p leaf_num_cells)
    → (c : ℕ) × (leaf_find env key page_num s
        ≡ ok (record { page_num = page_num; cell_num = c; end_of_table = none }) s)
      × IsPlace p (word p leaf_num_cells) key c
unfolding leaf_find
leaf_find-IsPlace env s p page_num key small here few ascending =
    let n = word p leaf_num_cells in
    let (c, runs, place) =
      leaf_find_loop-IsPlace page_num s here n key few ascending (n + 1) 0 n (omega arith)
        (omega arith) (omega arith) (λ i h. absurd (omega arith)) (λ i a b. absurd (omega arith)) in
    (
      c,
      rw
          (
            get_page-cached env page_num s small here,
            load32-ok page_num s here leaf_num_cells (omega arith),
            runs,
          )
          refl,
      place,
    )
