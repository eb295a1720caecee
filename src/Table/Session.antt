-- ===== src/Table/Session.antt =====
-- Inserts and selects on a table of one leaf refine a sorted list of cells.
use gnaro.Base.{
  ℕ, zero, suc, ◌+◌, ◌^◌, ◌≤◌, ◌<◌, ◌≡◌, refl, ◌∙◌, ap, inl, inr, some, arith, false, if◌then◌else◌,
  List, [], ◌∷◌, length,
}
use gnaro.Memory.{Cmd, pure, File, Pager, ok, ◌>>=◌, put}
use gnaro.Memory.Bytes.{Page, word}
use gnaro.Memory.Laws.{update_ne}
use gnaro.Row.{Row}
use gnaro.Row.RoundTrip.{stored}
use gnaro.Pager.{Env}
use gnaro.Btree.Layout.{leaf_max_cells}
use gnaro.Btree.Leaf.{leaf_num_cells}
use gnaro.Btree.Leaf.View.{Cell, cells, cells_from}
use gnaro.Database.{root_page_num, database_open}
use gnaro.Btree.Insert.Listing.{insert_sorted}
use gnaro.Statement.Prepare.{insert}
use gnaro.Statement.Execute.{
  StatementExecuteResult, success, duplicate_key, statement_execute_insert,
  statement_execute_select,
}
use gnaro.Table.Refine.{execute_insert-insert_sorted}
use gnaro.Table.Select.{rows, execute_select-rows}
use gnaro.Table.Single.{has_key}
use gnaro.Table.Open.{Shows, database_open-Shows}

-- The statements of a session: an insert of each row in turn, then a select. The reference keeps a
-- sorted list of cells, in which an id that is there already is not inserted again.
abbrev pub apply_insert : Row → List Cell → List Cell
apply_insert r xs =
    if has_key r.id xs then xs else insert_sorted (record { key = r.id; row = stored r }) xs

abbrev pub answer : Row → List Cell → StatementExecuteResult
answer r xs = if has_key r.id xs then duplicate_key else success

unfoldable pub apply_inserts : List Row → List Cell → List Cell
apply_inserts [] xs = xs
apply_inserts (r ∷ rs) xs = apply_inserts rs (apply_insert r xs)

unfoldable pub answers : List Row → List Cell → List StatementExecuteResult
answers [] xs = []
answers (r ∷ rs) xs = answer r xs ∷ answers rs (apply_insert r xs)

-- The program on those statements.
unfoldable pub execute_inserts : Env → ℕ → List Row → Cmd (List StatementExecuteResult)
execute_inserts env fuel [] = pure []
execute_inserts env fuel (r ∷ rs) = do
  result ←
      statement_execute_insert env fuel root_page_num (record { type = insert; row_to_insert = r })
  results ← execute_inserts env fuel rs
  pure (result ∷ results)

-- Every id is that of a `uint32_t`.
abbrev pub AllFit : List Row → Type 0
AllFit [] = Unit
AllFit (r ∷ rs) = (r.id < 2 ^ 32) × AllFit rs

length-cells_from : (p : Page) (i n : ℕ) → length (cells_from p i n) ≡ n
unfolding cells_from
length-cells_from p i zero = refl
length-cells_from p i (suc n) = ap suc (length-cells_from p (suc i) n)

pub length-cells : (p : Page) → length (cells p) ≡ word p leaf_num_cells
unfolding cells
length-cells p = length-cells_from p 0 (word p leaf_num_cells)

pub length-insert_sorted :
    (x : Cell) (xs : List Cell) → length (insert_sorted x xs) ≡ suc (length xs)
unfolding insert_sorted
length-insert_sorted x [] = refl
length-insert_sorted x (y ∷ ys) = ground (arith, length-insert_sorted x ys)

-- One insert.
pub insert-Shows :
    (env : Env) (fuel : ℕ) (r : Row) (s : Pager) (xs : List Cell)
    → Shows s xs
    → r.id < 2 ^ 32
    → length xs < leaf_max_cells
    → (t : Pager) × (statement_execute_insert env fuel root_page_num
          (record { type = insert; row_to_insert = r })
          s
        ≡ ok (answer r xs) t)
      × Shows t (apply_insert r xs)
insert-Shows env fuel r s xs v fits room =
    elim (execute_insert-insert_sorted env fuel (record { type = insert; row_to_insert = r }) s
      v.page v.single fits) [
        | inl (has, runs) ↦ let has' = rw v.content at has in (s, rw has' runs, rw has' v)
        | inr (hasnt, inserts) ↦
            let hasnt' = rw v.content at hasnt in
            let (q, runs, single, content) =
              inserts (omega (arith, length-cells v.page, ap (length {0}) v.content)) in
            (
              put root_page_num q s,
              rw hasnt' runs,
              rw hasnt' (record {
                page = q;
                single = single;
                content = rw v.content at content;
                one = v.one;
                alone = update_ne s.pages root_page_num 1 (some q) (λ e. omega arith) ∙ v.alone;
                used = v.used;
                few = v.few;
                whole = v.whole;
                short = v.short;
              }),
            )
      ]

pub inserts-Shows :
    (env : Env) (fuel : ℕ) (rs : List Row) (s : Pager) (xs : List Cell)
    → Shows s xs
    → AllFit rs
    → length xs + length rs ≤ leaf_max_cells
    → (t : Pager) × (execute_inserts env fuel rs s ≡ ok (answers rs xs) t)
      × Shows t (apply_inserts rs xs)
unfolding execute_inserts answers apply_inserts
inserts-Shows env fuel [] s xs v fits room = (s, refl, v)
inserts-Shows env fuel (r ∷ rs) s xs v fits room =
    let (t, runs, v') = insert-Shows env fuel r s xs v fits.0 (omega arith) in
    let (u, runs', v'') =
      inserts-Shows env fuel rs t (apply_insert r xs) v' fits.1
        (ground (arith, length-insert_sorted (record { key = r.id; row = stored r }) xs)) in
    (u, rw (runs, runs') refl, v'')

pub select-Shows :
    (env : Env) (fuel : ℕ) (s : Pager) (xs : List Cell)
    → Shows s xs
    → leaf_max_cells < fuel
    → statement_execute_select env fuel root_page_num s ≡ ok (rows xs, success) s
select-Shows env fuel s xs v h =
    rw v.content at (execute_select-rows env fuel s v.page v.single (omega (arith, v.single.few)))

-- From an empty file, where reading does not fail, with fuel of more than 13: the database opens; at
-- most 13 inserts of rows whose ids fit are all answered as the sorted reference answers them, a
-- repeated id by `duplicate_key`; and the select behind them prints the rows of the reference, in
-- order.
pub session-sorted :
    (env : Env) (fuel : ℕ) (fd : File) (rs : List Row)
    → fd.size ≡ 0
    → ((o : ℕ) → env.read_fails o ≡ false)
    → AllFit rs
    → length rs ≤ leaf_max_cells
    → leaf_max_cells < fuel
    → (s t : Pager) × (database_open env (some fd) ≡ some (ok tt s))
      × (execute_inserts env fuel rs s ≡ ok (answers rs []) t)
      × (statement_execute_select env fuel root_page_num t
          ≡ ok (rows (apply_inserts rs []), success) t)
session-sorted env fuel fd rs empty reads fits room enough =
    let (s, opens, v) = database_open-Shows env fd empty reads in
    let (t, runs, v') = inserts-Shows env fuel rs s [] v fits (omega arith) in
    (s, t, opens, runs, select-Shows env fuel t (apply_inserts rs []) v' enough)
