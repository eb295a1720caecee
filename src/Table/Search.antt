-- ===== src/Table/Search.antt =====
-- The invariant of a table of any height: a search tree whose leaves are chained.
pub mod Keys
pub mod Place
pub mod Order
pub mod Keep
pub mod OnPath
pub mod Linked
pub mod Insert
pub mod Execute
pub mod Start
use gnaro.Base.{ℕ, zero, suc, ◌≤◌, ◌<◌, ◌≡◌, ◌≢◌, some, List}
use gnaro.Memory.{Pager}
use gnaro.Memory.Bytes.{Page, word}
use gnaro.Btree.Leaf.{leaf_num_cells, leaf_next}
use gnaro.Btree.Leaf.View.{Cell, key_at}
use gnaro.Btree.Internal.{internal_num_keys}
use gnaro.Btree.Internal.View.{separator}
use gnaro.Btree.Insert.AllKeys.{AllKeys}
use gnaro.Btree.Insert.Ascend.{KeysAscend}
use gnaro.Cursor.Descent.{IsTree, child_number}
use gnaro.Table.Chain.{Chain}
use gnaro.Table.SelectTree.{Leftmost}

-- A key in a leaf under the node on page `n`.
unfoldable pub HasKey : Pager → (height n key : ℕ) → Type 0
HasKey s zero n a =
    (p : Page) × (s.pages n ≡ some p) × (j : ℕ) × (j < word p leaf_num_cells) × (key_at p j ≡ a)
HasKey s (suc h) n a =
    (p : Page) × (s.pages n ≡ some p)
    × (i : ℕ) × (i ≤ word p internal_num_keys)
    × HasKey s h (child_number p i) a

-- Page `k` is that of a leaf under the node on page `n`.
unfoldable pub OnLeaf : Pager → (height n k : ℕ) → Type 0
OnLeaf s zero n k = n ≡ k
OnLeaf s (suc h) n k =
    (p : Page) × (s.pages n ≡ some p)
    × (i : ℕ) × (i ≤ word p internal_num_keys)
    × OnLeaf s h (child_number p i) k

-- The separators part the keys of the children.
unfoldable pub IsSearch : Pager → (height n : ℕ) → Type 0
IsSearch s zero n = Unit
IsSearch s (suc h) n =
    (p : Page) × (s.pages n ≡ some p)
    × ((i a : ℕ)
        → i < word p internal_num_keys
        → HasKey s h (child_number p i) a
        → a ≤ separator p i)
    × ((i a : ℕ)
        → i < word p internal_num_keys
        → HasKey s h (child_number p (suc i)) a
        → separator p i < a)
    × ((i : ℕ) → i ≤ word p internal_num_keys → IsSearch s h (child_number p i))

-- Page `k` is on the chain of leaves from page `n` on.
pub data InChain (s : Pager) (k : ℕ) : ℕ → Type 0 where
  here : (n : ℕ) → n ≡ k → InChain s k n
  later :
      (n : ℕ) (p : Page)
      → s.pages n ≡ some p
      → word p leaf_next ≢ 0
      → InChain s k (word p leaf_next)
      → InChain s k n

-- The table with the rows `xs`: a search tree, and a chain of its leaves, from the leftmost on, that
-- holds `xs`, in ascending order.
pub record IsTable (s : Pager) (height root : ℕ) (xs : List Cell) : Type 0 where
  pub tree : IsTree s height root
  pub search : IsSearch s height root
  pub first : ℕ
  pub leftmost : Leftmost s height root first
  pub chain : Chain s first xs
  pub ascend : KeysAscend xs
  pub chained : (k : ℕ) → OnLeaf s height root k → InChain s k first
  pub in_tree : AllKeys (HasKey s height root) xs
