-- ===== src/Btree/Insert/AllKeys.antt =====
-- What holds of all keys of a list of cells, and of the cells of a page.
use gnaro.Base.{
  ℕ, zero, suc, ◌+◌, ◌≤◌, ◌<◌, ◌≡◌, arith, List, [], ◌∷◌, ◌++◌, ltb, inl, inr, Bool-cases, refl,
  le→not_ltb, lt→ltb,
}
use gnaro.Memory.Bytes.{Page, word}
use gnaro.Btree.Leaf.{leaf_num_cells}
use gnaro.Btree.Leaf.View.{Cell, cell_at, cells, cells_from, key_at}
use gnaro.Btree.Insert.Listing.{insert_sorted}

unfoldable pub AllKeys : (ℕ → Type 0) → List Cell → Type 0
AllKeys P [] = Unit {0}
AllKeys P (x ∷ xs) = P x.key × AllKeys P xs

pub AllKeys-weaken :
    (P Q : ℕ → Type 0) (xs : List Cell) → ((k : ℕ) → P k → Q k) → AllKeys P xs → AllKeys Q xs
unfolding AllKeys
AllKeys-weaken P Q [] h all = tt
AllKeys-weaken P Q (x ∷ xs) h all = (h x.key all.0, AllKeys-weaken P Q xs h all.1)

pub AllKeys-insert_sorted :
    (P : ℕ → Type 0) (x : Cell) (xs : List Cell)
    → P x.key
    → AllKeys P xs
    → AllKeys P (insert_sorted x xs)
unfolding AllKeys insert_sorted
AllKeys-insert_sorted P x [] h all = (h, tt)
AllKeys-insert_sorted P x (y ∷ ys) h all =
    let rest = AllKeys-insert_sorted P x ys h all.1 in
    elim (Bool-cases (ltb y.key x.key)) [
      | inl less ↦ rw less (all.0, rest)
      | inr not_less ↦ rw not_less (h, all)
    ]

pub AllKeys-append : (P : ℕ → Type 0) (xs ys : List Cell) → AllKeys P (xs ++ ys) → AllKeys P xs
unfolding AllKeys
AllKeys-append P [] ys all = tt
AllKeys-append P (x ∷ xs) ys all = (all.0, AllKeys-append P xs ys all.1)

pub cells_from-AllKeys :
    (P : ℕ → Type 0) (p : Page) (i n : ℕ)
    → ((j : ℕ) → i ≤ j → j < i + n → P (key_at p j))
    → AllKeys P (cells_from p i n)
unfolding AllKeys cells_from cell_at
cells_from-AllKeys P p i zero h = tt
cells_from-AllKeys P p i (suc n) h = (
  h i (omega arith) (omega arith),
  cells_from-AllKeys P p (suc i) n λ j low lt. h j (omega arith) (omega arith),
)

pub cells-AllKeys :
    (P : ℕ → Type 0) (p : Page)
    → ((j : ℕ) → j < word p leaf_num_cells → P (key_at p j))
    → AllKeys P (cells p)
unfolding cells
cells-AllKeys P p h = cells_from-AllKeys P p 0 (word p leaf_num_cells) λ j low lt. h j (omega arith)

pub key_at_from :
    (P : ℕ → Type 0) (p : Page) (i n j : ℕ)
    → AllKeys P (cells_from p i n)
    → i ≤ j
    → j < i + n
    → P (key_at p j)
unfolding AllKeys cells_from cell_at
key_at_from P p i zero j all low lt = absurd (omega arith)
key_at_from P p i (suc n) j all low lt = elim (Bool-cases (ltb i j)) [
  | inl later ↦ key_at_from P p (suc i) n j all.1 (ground arith) (omega arith)
  | inr here ↦ let e : j ≡ i = ground arith in rw e all.0
]

pub key_at-AllKeys :
    (P : ℕ → Type 0) (p : Page) (j : ℕ)
    → AllKeys P (cells p)
    → j < word p leaf_num_cells
    → P (key_at p j)
unfolding cells
key_at-AllKeys P p j all lt =
    key_at_from P p 0 (word p leaf_num_cells) j all (omega arith) (omega arith)

pub AllKeys-append_right :
    (P : ℕ → Type 0) (xs ys : List Cell) → AllKeys P (xs ++ ys) → AllKeys P ys
unfolding AllKeys
AllKeys-append_right P [] ys all = all
AllKeys-append_right P (x ∷ xs) ys all = AllKeys-append_right P xs ys all.1

pub AllKeys-of_insert_sorted :
    (P : ℕ → Type 0) (x : Cell) (xs : List Cell)
    → AllKeys P (insert_sorted x xs)
    → P x.key × AllKeys P xs
unfolding AllKeys insert_sorted
AllKeys-of_insert_sorted P x [] all = all
AllKeys-of_insert_sorted P x (y ∷ ys) all = elim (Bool-cases (ltb y.key x.key)) [
  | inl less ↦
      let all' = rw less at all in
      let (new, old) = AllKeys-of_insert_sorted P x ys all'.1 in (new, (all'.0, old))
  | inr not_less ↦ rw not_less at all
]

pub AllKeys-both :
    (P Q : ℕ → Type 0) (xs : List Cell) → AllKeys P xs → AllKeys Q xs → AllKeys (λ k. P k × Q k) xs
unfolding AllKeys
AllKeys-both P Q [] p q = tt
AllKeys-both P Q (x ∷ xs) p q = ((p.0, q.0), AllKeys-both P Q xs p.1 q.1)

-- An insertion into a list falls into the part where the key belongs.
pub insert_sorted-append_left :
    (x : Cell) (xs ys : List Cell)
    → AllKeys (λ k. x.key < k) ys
    → insert_sorted x (xs ++ ys) ≡ insert_sorted x xs ++ ys
unfolding AllKeys insert_sorted
insert_sorted-append_left x [] [] above = refl
insert_sorted-append_left x [] (y ∷ ys) above =
    rw (le→not_ltb y.key x.key (omega (arith, above.0))) refl
insert_sorted-append_left x (z ∷ xs) ys above = elim (Bool-cases (ltb z.key x.key)) [
  | inl less ↦ rw (less, insert_sorted-append_left x xs ys above)
  | inr not_less ↦ rw not_less refl
]

pub insert_sorted-append_right :
    (x : Cell) (xs ys : List Cell)
    → AllKeys (λ k. k < x.key) xs
    → insert_sorted x (xs ++ ys) ≡ xs ++ insert_sorted x ys
unfolding AllKeys insert_sorted
insert_sorted-append_right x [] ys below = refl
insert_sorted-append_right x (z ∷ xs) ys below =
    rw (lt→ltb z.key x.key below.0, insert_sorted-append_right x xs ys below.1)

pub AllKeys-join :
    (P : ℕ → Type 0) (xs ys : List Cell) → AllKeys P xs → AllKeys P ys → AllKeys P (xs ++ ys)
unfolding AllKeys
AllKeys-join P [] ys left right = right
AllKeys-join P (x ∷ xs) ys left right = (left.0, AllKeys-join P xs ys left.1 right)
