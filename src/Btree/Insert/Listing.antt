-- ===== src/Btree/Insert/Listing.antt =====
-- Cells as lists: by a function, and the sorted insertion into them.
use gnaro.Base.{
  ℕ, zero, suc, ◌+◌, ◌≤◌, ◌<◌, ◌≡◌, refl, ap, inl, inr, arith, Bool-cases, ltb, ◌==◌, if◌then◌else◌,
  List, [], ◌∷◌, ◌++◌, lt→ltb, le→not_ltb,
}
use mathlib.Core.Path.{ap₂}
use gnaro.Memory.Bytes.{Page}
use gnaro.Btree.Leaf.View.{Cell, cell_at, cells_from}

-- The reference: a cell goes before the first one whose key is not smaller.
unfoldable pub insert_sorted : Cell → List Cell → List Cell
insert_sorted x [] = x ∷ []
insert_sorted x (y ∷ ys) = if ltb y.key x.key then y ∷ insert_sorted x ys else x ∷ y ∷ ys

-- The cells `f i`, `f (i + 1)`, … , `f (i + n - 1)`.
unfoldable pub tabulate : (ℕ → Cell) → (i n : ℕ) → List Cell
tabulate f i zero = []
tabulate f i (suc n) = f i ∷ tabulate f (suc i) n

pub cells_from-tabulate : (p : Page) (i n : ℕ) → cells_from p i n ≡ tabulate (cell_at p) i n
unfolding cells_from tabulate
cells_from-tabulate p i zero = refl
cells_from-tabulate p i (suc n) = ap (λ xs. cell_at p i ∷ xs) (cells_from-tabulate p (suc i) n)

-- Two functions that agree, one place apart.
pub tabulate-ext :
    (f g : ℕ → Cell) (i j n : ℕ)
    → ((a b : ℕ) → i ≤ a → a < i + n → a + j ≡ b + i → f a ≡ g b)
    → tabulate f i n ≡ tabulate g j n
unfolding tabulate
tabulate-ext f g i j zero h = refl
tabulate-ext f g i j (suc n) h = ap₂ ◌∷◌ (h i j (omega arith) (omega arith) (omega arith)) (
    tabulate-ext f g (suc i) (suc j) n
      λ a b low high e. h a b (omega arith) (omega arith) (omega arith))

pub tabulate-append :
    (f : ℕ → Cell) (i m n j : ℕ)
    → j ≡ i + m
    → tabulate f i m ++ tabulate f j n ≡ tabulate f i (m + n)
unfolding tabulate
tabulate-append f i zero n j e =
    let same : j ≡ i = omega arith in let none : zero + n ≡ n = omega arith in rw (same, none) refl
tabulate-append f i (suc m) n j e =
    let more : suc m + n ≡ suc (m + n) = omega arith in
    rw more (ap (λ xs. f i ∷ xs) (tabulate-append f (suc i) m n j (omega arith)))

-- A function `g` that has the cells of `f` with `x` at place `c` lists their sorted insertion.
pub tabulate-insert_sorted :
    (f g : ℕ → Cell) (x : Cell) (i n c : ℕ)
    → i ≤ c
    → c ≤ i + n
    → ((k : ℕ) → i ≤ k → k < c → (g k ≡ f k) × ((f k).key < x.key))
    → g c ≡ x
    → ((k : ℕ) → c ≤ k → k < i + n → (g (suc k) ≡ f k) × (x.key ≤ (f k).key))
    → tabulate g i (suc n) ≡ insert_sorted x (tabulate f i n)
unfolding tabulate insert_sorted
tabulate-insert_sorted f g x i zero c lo hi below here above =
    let e : c ≡ i = omega arith in ap (λ y. y ∷ []) (rw e at here)
tabulate-insert_sorted f g x i (suc n) c lo hi below here above = elim (Bool-cases (c == i)) [
  | inl e ↦
      let e : c ≡ i = ground arith in
      let first = above i (omega arith) (omega arith) in
      rw (le→not_ltb (f i).key x.key first.1) (
        ap₂ ◌∷◌ (rw e at here) (
          tabulate-ext g f (suc i) i (suc n)
            λ a b low high e'. shifted a b e' (above b (omega arith) (omega arith)).0))
  | inr e ↦
      let lo' : suc i ≤ c = ground arith in
      let first = below i (omega arith) lo' in
      rw (lt→ltb (f i).key x.key first.1) (
        ap₂ ◌∷◌ first.0 (
          tabulate-insert_sorted f g x (suc i) n c lo' (omega arith)
            (λ k a b. below k (omega arith) b) here (λ k a b. above k a (omega arith))))
]
  where
    shifted : (a b : ℕ) → a + i ≡ b + suc i → g (suc b) ≡ f b → g a ≡ f b
    shifted a b e same = let next : a ≡ suc b = omega arith in rw next same
