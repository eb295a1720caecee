-- ===== src/Btree/Insert/Ascend.antt =====
-- Lists of cells with ascending keys, and the pages that hold them.
use gnaro.Base.{
  ℕ, zero, suc, ◌+◌, ◌≤◌, ◌<◌, ◌≡◌, ◌≢◌, arith, List, [], ◌∷◌, ◌++◌, ltb, inl, inr, Bool-cases,
  ltb→lt, not_ltb→le,
}
use gnaro.Memory.Bytes.{Page, word}
use gnaro.Btree.Leaf.{leaf_num_cells}
use gnaro.Btree.Leaf.View.{Cell, cell_at, cells, cells_from, key_at, Ascending}
use gnaro.Btree.Insert.Listing.{insert_sorted}
use gnaro.Btree.Insert.AllKeys.{
  AllKeys, AllKeys-weaken, AllKeys-insert_sorted, AllKeys-append, AllKeys-append_right,
  cells_from-AllKeys, key_at_from,
}

unfoldable pub KeysAscend : List Cell → Type 0
KeysAscend [] = Unit {0}
KeysAscend (x ∷ xs) = AllKeys (λ k. x.key < k) xs × KeysAscend xs

pub KeysAscend-insert_sorted :
    (x : Cell) (xs : List Cell)
    → AllKeys (λ k. k ≢ x.key) xs
    → KeysAscend xs
    → KeysAscend (insert_sorted x xs)
unfolding KeysAscend insert_sorted AllKeys
KeysAscend-insert_sorted x [] absent order = (tt, tt)
KeysAscend-insert_sorted x (y ∷ ys) absent order =
    let rest = KeysAscend-insert_sorted x ys absent.1 order.1 in
    elim (Bool-cases (ltb y.key x.key)) [
      | inl less ↦
          let lt = ltb→lt y.key x.key less in
          rw less (AllKeys-insert_sorted (λ k. y.key < k) x ys lt order.0, rest)
      | inr not_less ↦
          let le = not_ltb→le y.key x.key not_less in
          let ne = absent.0 in
          let lt : x.key < y.key = omega arith in
          rw not_less (
            (
              lt,
              AllKeys-weaken (λ k. y.key < k) (λ k. x.key < k) ys (λ k above. omega arith) order.0,
            ),
            order,
          )
    ]

pub KeysAscend-append : (xs ys : List Cell) → KeysAscend (xs ++ ys) → KeysAscend xs × KeysAscend ys
unfolding KeysAscend
KeysAscend-append [] ys order = (tt, order)
KeysAscend-append (x ∷ xs) ys order =
    let (left, right) = KeysAscend-append xs ys order.1 in
    ((AllKeys-append (λ k. x.key < k) xs ys order.0, left), right)

cells_from-KeysAscend :
    (p : Page) (i n : ℕ)
    → ((a b : ℕ) → i ≤ a → a < b → b < i + n → key_at p a < key_at p b)
    → KeysAscend (cells_from p i n)
unfolding KeysAscend cells_from cell_at
cells_from-KeysAscend p i zero h = tt
cells_from-KeysAscend p i (suc n) h = (
  cells_from-AllKeys (λ k. key_at p i < k) p (suc i) n
      λ j low lt. h i j (omega arith) (omega arith) (omega arith),
  cells_from-KeysAscend p (suc i) n
      λ a b low less lt. h a b (omega arith) (omega arith) (omega arith),
)

pub cells-KeysAscend : (p : Page) → Ascending p (word p leaf_num_cells) → KeysAscend (cells p)
unfolding cells
cells-KeysAscend p ascending =
    cells_from-KeysAscend p 0 (word p leaf_num_cells)
      λ a b low less lt. ascending a b less (omega arith)

ascending_from :
    (p : Page) (i n a b : ℕ)
    → KeysAscend (cells_from p i n)
    → i ≤ a
    → a < b
    → b < i + n
    → key_at p a < key_at p b
unfolding KeysAscend cells_from cell_at
ascending_from p i zero a b order low less lt = absurd (omega arith)
ascending_from p i (suc n) a b order low less lt = elim (Bool-cases (ltb i a)) [
  | inl later ↦ ascending_from p (suc i) n a b order.1 (ground arith) less (omega arith)
  | inr here ↦
      let e : a ≡ i = ground arith in
      rw e (key_at_from (λ k. key_at p i < k) p (suc i) n b order.0 (omega arith) (omega arith))
]

pub cells-Ascending : (p : Page) → KeysAscend (cells p) → Ascending p (word p leaf_num_cells)
unfolding cells
cells-Ascending p order a b less lt =
    ascending_from p 0 (word p leaf_num_cells) a b order (omega arith) less (omega arith)

-- What follows in an ascending list has larger keys than any cell of the page in front.
ascending_behind :
    (p : Page) (i n j : ℕ) (ys : List Cell)
    → KeysAscend (cells_from p i n ++ ys)
    → i ≤ j
    → j < i + n
    → AllKeys (λ k. key_at p j < k) ys
unfolding KeysAscend cells_from cell_at
ascending_behind p i zero j ys order low lt = absurd (omega arith)
ascending_behind p i (suc n) j ys order low lt = elim (Bool-cases (ltb i j)) [
  | inl later ↦ ascending_behind p (suc i) n j ys order.1 (ground arith) (omega arith)
  | inr here ↦
      let e : j ≡ i = ground arith in
      rw e (AllKeys-append_right (λ k. key_at p i < k) (cells_from p (suc i) n) ys order.0)
]

pub cells-behind :
    (p : Page) (j : ℕ) (ys : List Cell)
    → KeysAscend (cells p ++ ys)
    → j < word p leaf_num_cells
    → AllKeys (λ k. key_at p j < k) ys
unfolding cells
cells-behind p j ys order lt =
    ascending_behind p 0 (word p leaf_num_cells) j ys order (omega arith) (omega arith)
