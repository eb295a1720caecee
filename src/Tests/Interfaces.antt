-- ===== src/Tests/Interfaces.antt =====
-- The theorems on the interfaces, the printing and the program at concrete inputs.
use gnaro.Base.{ℕ, List, [], ◌∷◌, ◌++◌, ◌≡◌, refl, arith, Option, some, drop}
use gnaro.Memory.{File}
use gnaro.Row.{c_string}
use gnaro.Row.Print.{row_print, print_int}
use gnaro.Statement.Text.{atoi, pos}
use gnaro.Statement.Prepare.{bytes}
use gnaro.Statement.Printed.{atoi-row_print}
use gnaro.Program.{Arguments}
use gnaro.Interface.PagerInterface
use gnaro.Interface.NodeInterface
use gnaro.Tests.Data.{env, user, empty_file}

pager-IsLawful_example : PagerInterface.IsLawful env.seek_fails (PagerInterface.pager env)
pager-IsLawful_example = PagerInterface.pager-IsLawful env

node_functions-IsLawful_example : NodeInterface.IsLawful (NodeInterface.node_functions env 5)
node_functions-IsLawful_example = NodeInterface.node_functions-IsLawful env 5

atoi-row_print_example : atoi (drop 1 (row_print (user 120))) ≡ some (pos 120)
atoi-row_print_example = atoi-row_print (user 120) (omega arith)

-- What a row looks like.
row_printed : row_print (user 120) ≡ bytes "(120, bob, bob@x.y)" ++ 10 ∷ []
unfolding row_print print_int c_string
row_printed = refl

-- `gnaro -d db` without the file `db`, and with an empty one.
abbrev parsed : (max_errors : ℕ) → List (List ℕ) → Arguments
parsed max_errors argv = record {
  help = 0;
  version = 0;
  database = bytes "db";
  verbosity = 0;
  errors = 0;
}

abbrev found : List ℕ → Option File
found name = some empty_file
