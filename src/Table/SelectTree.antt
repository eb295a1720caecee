-- ===== src/Table/SelectTree.antt =====
-- `statement_execute_select` of src/statement.c on a tree of any height.
use gnaro.Base.{
  ℕ, zero, suc, ◌<◌, ◌≡◌, ◌∙◌, ap, some, arith, ◌==◌, ==→eq, Bool-cases, inl, inr, List, length,
  ne→not_==,
}
use mathlib.Core.Path.{subst}
use gnaro.Memory.{Pager, ok}
use gnaro.Memory.Bytes.{Page, word}
use gnaro.Memory.Laws.{load32-ok}
use gnaro.Pager.{Env}
use gnaro.Pager.Cache.{get_page-cached}
use gnaro.Btree.Leaf.{leaf_num_cells}
use gnaro.Btree.Leaf.View.{Cell, IsPlace}
use gnaro.Btree.Internal.{internal_num_keys}
use gnaro.Btree.Internal.View.{IsChildPlace}
use gnaro.Cursor.{cursor_start}
use gnaro.Cursor.Descent.{
  IsTree, IsLeaf, IsInternal, Descent, arrived, down, child_number, cursor_find_key-IsFound,
}
use gnaro.Statement.Execute.{success, statement_execute_select}
use gnaro.Table.Select.{rows}
use gnaro.Table.Chain.{Chain, last, link, at, select_loop-Chain}

-- Page `m` is that of the leftmost leaf under the node on page `n`.
unfoldable pub Leftmost : Pager → (height n m : ℕ) → Type 0
Leftmost s zero n m = n ≡ m
Leftmost s (suc h) n m = (p : Page) × (s.pages n ≡ some p) × Leftmost s h (child_number p 0) m

pub same_page : (s : Pager) (n : ℕ) (p q : Page) → s.pages n ≡ some p → s.pages n ≡ some q → p ≡ q
same_page s n p q a b = cc

pub not_both : (s : Pager) (n : ℕ) (p q : Page) → IsLeaf s n p → IsInternal s n q → ⊥
not_both s n p q l d =
    let same = ap (λ (r : Page). r 0) (same_page s n p q l.cached d.cached) in
    omega (arith, l.type, d.type)

first_place : (p : Page) (n c : ℕ) → IsChildPlace p n 0 c → c ≡ 0
first_place p n c place = elim (Bool-cases (c == 0)) [
  | inl e ↦ ==→eq c 0 e
  | inr e ↦ let negative = place.below 0 (ground arith) in absurd (omega arith)
]

first_cell : (p : Page) (n c : ℕ) → IsPlace p n 0 c → c ≡ 0
first_cell p n c place = elim (Bool-cases (c == 0)) [
  | inl e ↦ ==→eq c 0 e
  | inr e ↦ let negative = place.below 0 (ground arith) in absurd (omega arith)
]

-- The key 0 belongs in the leftmost leaf.
Descent-Leftmost :
    (s : Pager) (h n m k : ℕ) (q : Page)
    → IsTree s h n
    → Leftmost s h n m
    → Descent s 0 n k
    → IsLeaf s k q
    → k ≡ m
unfolding IsTree Leftmost
Descent-Leftmost s zero n m k q (p, l) here (arrived _) leaf = here
Descent-Leftmost s zero n m k q (p, l) here (down _ _ c r d place path) leaf =
    absurd (not_both s n p r l d)
Descent-Leftmost s (suc h) n m k q (p, e, rest) (r, there, left) (arrived _) leaf =
    absurd (not_both s n q p leaf e)
Descent-Leftmost s (suc h) n m k q (p, e, rest) (r, there, left) (down _ _ c u d place path) leaf =
    let same : u ≡ p = same_page s n u p d.cached e.cached in
    let same' : r ≡ p = same_page s n r p there e.cached in
    let first : child_number u c ≡ child_number p 0 =
      ap (child_number u) (first_place u (word u internal_num_keys) c place)
      ∙ ap (λ (a : Page). child_number a 0) same in
    let left' = subst (λ (a : Page). Leftmost s h (child_number a 0) m) same' left in
    let path' = subst (λ a. Descent s 0 a k) first path in
    Descent-Leftmost s h (child_number p 0) m k q (rest 0 (omega arith)) left' path' leaf

Chain-head :
    (s : Pager) (n : ℕ) (xs : List Cell)
    → Chain s n xs
    → (p : Page) × IsLeaf s n p × (0 < word p leaf_num_cells)
Chain-head s n xs (last _ _ p l some_cells _ _) = (p, l, some_cells)
Chain-head s n xs (link _ _ p _ l some_cells _ _ _) = (p, l, some_cells)

-- The cursor starts at the first cell of the leftmost leaf.
cursor_start-Leftmost :
    (env : Env) (s : Pager) (h fuel root m : ℕ) (xs : List Cell)
    → IsTree s h root
    → Leftmost s h root m
    → Chain s m xs
    → h < fuel
    → cursor_start env fuel root s ≡ ok (at m 0) s
unfolding cursor_start
cursor_start-Leftmost env s h fuel root m xs tree left chain enough =
    let (cursor, runs, f) = cursor_find_key-IsFound env s h fuel root 0 tree enough in
    let (p, l, some_cells) = Chain-head s m xs chain in
    let there : cursor.page_num ≡ m =
      Descent-Leftmost s h root m cursor.page_num f.page tree left f.path f.leaf in
    let first : cursor.cell_num ≡ 0 =
      first_cell f.page (word f.page leaf_num_cells) cursor.cell_num f.place in
    rw (
      runs,
      there,
      first,
      get_page-cached env m s l.small l.cached,
      load32-ok m s l.cached leaf_num_cells (omega arith),
      ne→not_== (word p leaf_num_cells) 0 (λ e. omega arith),
    )

-- On a well-formed tree of any height, with a chain of leaves from its leftmost leaf on, none of them
-- empty, a select returns, changes nothing, and prints the rows of all leaves in the chain, in order
-- and each once, if the fuel exceeds the height of the tree and the number of rows.
pub execute_select-Chain :
    (env : Env) (s : Pager) (h fuel root m : ℕ) (xs : List Cell)
    → IsTree s h root
    → Leftmost s h root m
    → Chain s m xs
    → h < fuel
    → length xs < fuel
    → statement_execute_select env fuel root s ≡ ok (rows xs, success) s
unfolding statement_execute_select
execute_select-Chain env s h fuel root m xs tree left chain high enough = rw (
  cursor_start-Leftmost env s h fuel root m xs tree left chain high,
  select_loop-Chain env s fuel m xs chain enough,
)
