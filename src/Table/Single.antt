-- ===== src/Table/Single.antt =====
-- A table whose root is still a leaf: its invariant, and what it holds.
use gnaro.Base.{
  ℕ, zero, suc, ◌+◌, ◌-◌, ◌^◌, ◌≤◌, ◌<◌, ◌≡◌, refl, ◌≢◌, ap, sym, inl, inr, some, arith, ltb, ◌==◌,
  ◌||◌, ◌&&◌, Bool, true, false, ◌⊎◌, Bool-cases, List, [], ◌∷◌, ==→eq, ne→not_==,
}
use gnaro.Memory.{Pager}
use gnaro.Memory.Bytes.{Page, word}
use gnaro.Row.{Row}
use gnaro.Btree.Layout.{leaf_max_cells}
use gnaro.Btree.Leaf.{leaf_num_cells, leaf_next}
use gnaro.Btree.Leaf.View.{key_at, cell_at, Cell, cells_from, cells, Ascending, IsPlace}
use gnaro.Btree.Insert.Cells.{
  inserted, cell_at-inserted_below, cell_at-inserted_above, cell_at-inserted_self,
}
use gnaro.Database.{root_page_num}

-- Page 0 is an allocated leaf, marked as the root, with at most 13 ascending keys and no sibling.
pub record IsSingle (s : Pager) (p : Page) : Type 0 where
  pub cached : s.pages root_page_num ≡ some p
  pub type : p 0 ≡ 1
  pub root_mark : p 1 ≡ 1
  pub few : word p leaf_num_cells ≤ leaf_max_cells
  pub ascending : Ascending p (word p leaf_num_cells)
  pub next : word p leaf_next ≡ 0

-- Whether a key is among the cells.
unfoldable pub has_key : ℕ → List Cell → Bool
has_key k [] = false
has_key k (x ∷ xs) = x.key == k || has_key k xs

-- The key is among the cells exactly if it stands at its place.
pub has_key_at :
    (p : Page) (i m k j : ℕ)
    → i ≤ j
    → j < i + m
    → key_at p j ≡ k
    → has_key k (cells_from p i m) ≡ true
unfolding has_key cells_from cell_at
has_key_at p i zero k j a b e = absurd (omega arith)
has_key_at p i (suc m) k j a b e = elim (Bool-cases (key_at p i == k)) [
  | inl hit ↦ rw hit refl
  | inr miss ↦
      let further : suc i ≤ j = ground arith in
      rw miss (has_key_at p (suc i) m k j further (omega arith) e)
]

pub not_has_key :
    (p : Page) (i m k : ℕ)
    → ((j : ℕ) → i ≤ j → j < i + m → key_at p j ≢ k)
    → has_key k (cells_from p i m) ≡ false
unfolding has_key cells_from cell_at
not_has_key p i zero k h = refl
not_has_key p i (suc m) k h =
    rw (ne→not_== (key_at p i) k (h i (omega arith) (omega arith)))
      (not_has_key p (suc i) m k λ j a b. h j (omega arith) (omega arith))

-- At the place of a key either the key stands there, or it is absent.
pub place_decides :
    (p : Page) (k c : ℕ)
    → Ascending p (word p leaf_num_cells)
    → IsPlace p (word p leaf_num_cells) k c
    → ((c < word p leaf_num_cells) × (key_at p c ≡ k) × (has_key k (cells p) ≡ true))
      ⊎ (((j : ℕ) → j < word p leaf_num_cells → key_at p j ≢ k) × (has_key k (cells p) ≡ false))
unfolding cells
place_decides p k c ascending place = elim (Bool-cases (ltb c n && key_at p c == k)) [
  | inl hit ↦
      let inside : c < n = ground arith in
      let same : key_at p c ≡ k = ground arith in
      inl (inside, same, has_key_at p 0 n k c (omega arith) (omega arith) same)
  | inr miss ↦ inr (absent miss, not_has_key p 0 n k λ j a b. absent miss j (omega arith))
]
  where
    n : ℕ
    n = word p leaf_num_cells

    absent : (ltb c n && key_at p c == k) ≡ false → (j : ℕ) → j < n → key_at p j ≢ k
    absent miss j inside e = elim (Bool-cases (ltb j c)) [
      | inl before ↦ let l = place.below j (ground arith) in omega arith
      | inr after ↦
          let le : c ≤ j = ground arith in
          let inside' : c < n = omega arith in
          let far : key_at p c ≢ k = ground arith in
          elim (Bool-cases (c == j)) [
            | inl eq ↦ far (rw (==→eq c j eq) e)
            | inr ne ↦
                let lt = ascending c j (ground arith) inside in
                let l = place.above c (omega arith) inside' in omega arith
          ]
    ]

module _ (p : Page) (n c key : ℕ) (row : Row) (room : n < leaf_max_cells)
    (place : IsPlace p n key c) (ascending : Ascending p n)
    (absent : (j : ℕ) → j < n → key_at p j ≢ key) (key_fits : key < 2 ^ 32)
    (id_fits : row.id < 2 ^ 32) where
  data Side (i : ℕ) : Type 0 where
    before_place : i < c → key_at (inserted p n c key row) i ≡ key_at p i → Side i
    at_place : i ≡ c → key_at (inserted p n c key row) i ≡ key → Side i
    after_place :
        (i' : ℕ)
        → i ≡ suc i'
        → c ≤ i'
        → i' < n
        → key_at (inserted p n c key row) i ≡ key_at p i'
        → Side i

  key_below : (i : ℕ) → i < c → key_at (inserted p n c key row) i ≡ key_at p i
  unfolding cell_at
  key_below i h =
      ap (λ (x : Cell). x.key) (cell_at-inserted_below p n c key row place.within room i h)

  key_above : (i : ℕ) → c ≤ i → i < n → key_at (inserted p n c key row) (suc i) ≡ key_at p i
  unfolding cell_at
  key_above i h lt =
      ap (λ (x : Cell). x.key) (cell_at-inserted_above p n c key row place.within room i h lt)

  key_self : key_at (inserted p n c key row) c ≡ key
  unfolding cell_at
  key_self =
      ap (λ (x : Cell). x.key)
        (cell_at-inserted_self p n c key row place.within room key_fits id_fits)

  -- What stands at an index after the insertion: an old cell before the place, the new one, or an
  -- old cell behind it.
  side : (i : ℕ) → i < n + 1 → Side i
  side i h = elim (Bool-cases (ltb i c)) [
    | inl before ↦ let lt : i < c = ground arith in before_place lt (key_below i lt)
    | inr after ↦ elim (Bool-cases (i == c)) [
      | inl same ↦ let e : i ≡ c = ground arith in at_place e (rw e key_self)
      | inr other ↦
          let e : i ≡ suc (i - 1) = ground arith in
          let le : c ≤ i - 1 = ground arith in
          let lt : i - 1 < n = omega arith in
          after_place (i - 1) e le lt (rw (sym e) at (key_above (i - 1) le lt))
    ]
  ]

  strictly_above : (j : ℕ) → c ≤ j → j < n → key < key_at p j
  strictly_above j h lt = let le = place.above j h lt in let ne = absent j lt in omega arith

  -- An insertion of an absent key at its place keeps the keys ascending.
  pub inserted-Ascending : Ascending (inserted p n c key row) (n + 1)
  inserted-Ascending i j lt inside = elim (side j inside) [
    | before_place jc ej ↦ rw (ej, key_below i (omega arith)) (ascending i j lt (omega arith))
    | at_place jc ej ↦ let ic : i < c = omega arith in rw (ej, key_below i ic) (place.below i ic)
    | after_place j' e cj jn ej ↦ elim (side i (omega arith)) [
      | before_place ic ei ↦ rw (ej, ei) (ascending i j' (omega arith) jn)
      | at_place ic ei ↦ rw (ej, ei) (strictly_above j' cj jn)
      | after_place i' e' ci in' ei ↦ rw (ej, ei) (ascending i' j' (omega arith) jn)
    ]
  ]
