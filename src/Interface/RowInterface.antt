-- ===== src/Interface/RowInterface.antt =====
-- include/row.h, which src/row.c implements.
use gnaro.Base.{ℕ, List}
use gnaro.Memory.{Cmd}
use gnaro.Row.{Row, row_serialize, row_deserialize}
use gnaro.Row.Print.{row_print}

-- A place in a page is the page's number and an offset. What is printed is the result.
pub record RowInterface : Type 0 where
  pub serialize : (source : Row) → (node destination : ℕ) → Cmd (Unit {0})
  pub deserialize : (node source : ℕ) → Cmd Row
  pub print : Row → List ℕ

-- src/row.c.
abbrev pub row_functions : RowInterface
row_functions = record {
  serialize = row_serialize;
  deserialize = row_deserialize;
  print = row_print;
}
