-- ===== src/Btree/Grow/Never.antt =====
-- `btree_node_internal_split_and_insert` calls itself on every path to its end.
use gnaro.Base.{ℕ, zero, suc}
use gnaro.Memory.{Pager, Run, ok, exited, fault, out_of_fuel, Cmd, and_then, ◌>>◌}
use gnaro.Pager.{Env}
use gnaro.Btree.Grow.{internal_insert_with, split_halves, split_finish, internal_split_and_insert}

-- The run does not end with a value.
pub data HasNoValue {A : Type 0} : Run A → Type 0 where
  exits : HasNoValue exited
  faults : HasNoValue fault
  starves : HasNoValue out_of_fuel

-- Nor does a run that goes on with one of those, or that starts with one.
after :
    {A B : Type 0} (r : Run A) (k : A → Cmd B)
    → ((a : A) (s : Pager) → HasNoValue (k a s))
    → HasNoValue (and_then r k)
after (ok a s) k h = h a s
after exited k h = exits
after fault k h = faults
after out_of_fuel k h = starves

begin : {A B : Type 0} (r : Run A) (k : A → Cmd B) → HasNoValue r → HasNoValue (and_then r k)
begin r k exits = exits
begin r k faults = faults
begin r k starves = starves

-- Whatever the fuel, the state and the pages, a call of `btree_node_internal_split_and_insert`
-- does not return: it exits, is undefined, or recurs beyond the fuel.
pub internal_split_and_insert-HasNoValue :
    (env : Env) (fuel root_page_num parent_page_num child_page_num : ℕ) (s : Pager)
    → HasNoValue (internal_split_and_insert env fuel root_page_num parent_page_num child_page_num s)
unfolding internal_split_and_insert
internal_split_and_insert-HasNoValue env zero root parent child s = starves
internal_split_and_insert-HasNoValue env (suc fuel) root parent child s =
    let insert = internal_insert_with env (internal_split_and_insert env fuel root) fuel in
    after (split_halves env insert fuel root parent child s)
      (λ h.
        internal_split_and_insert env fuel root h.destination_page_num child
        >> split_finish env insert fuel h)
      λ h s'.
        begin (internal_split_and_insert env fuel root h.destination_page_num child s')
          (λ _. split_finish env insert fuel h)
          (internal_split_and_insert-HasNoValue env fuel root h.destination_page_num child s')
