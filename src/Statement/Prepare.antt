-- ===== src/Statement/Prepare.antt =====
-- `statement_prepare` and `statement_prepare_insert` of src/statement.c.
pub mod Words
pub mod Safe
use Prim.Native.String.{String}
use Prim.Native.Char.{code}
use gnaro.Base.{
  ℕ, ◌∷◌, Bool, true, false, Option, none, some, List, [], ltb, if◌then◌else◌, length, take,
}
use gnaro.Row.{Row, row_column_username_size, row_column_email_size}
use gnaro.Statement.Text.{ℤ, pos, negsuc, starts_with, equals, strtok, strcpy, atoi}

-- The bytes of an ASCII text.
abbrev pub bytes : String → List ℕ
bytes String.[] = []
bytes (String.◌∷◌ c s) = code c ∷ bytes s

-- How many bytes of the query are compared with the word "insert".
abbrev pub statement_insert_command_size : ℕ
statement_insert_command_size = 6

pub data StatementPrepareResult : Type 0 where
  success string_too_long negative_id syntax_error unrecognized : StatementPrepareResult

pub data StatementType : Type 0 where
  insert select : StatementType

pub record Statement : Type 0 where
  pub type : StatementType
  pub row_to_insert : Row

-- The statement with the three columns stored.
unfoldable pub fill : Statement → (id : ℕ) → (username email : List ℕ) → Statement
fill statement id username email = record statement {
  row_to_insert = record {
    id = id;
    username = strcpy statement.row_to_insert.username username;
    email = strcpy statement.row_to_insert.email email;
  };
}

-- The checks on the columns of an insert, and the stores behind them.
unfoldable pub check_columns :
    (id : ℤ) (username email : List ℕ) → Statement → StatementPrepareResult × Statement
unfolding fill
check_columns (negsuc n) username email statement = (negative_id, statement)
check_columns (pos id) username email statement =
    if ltb row_column_username_size (length username)
    then (string_too_long, statement)
    else if ltb row_column_email_size (length email)
    then (string_too_long, statement)
    else (success, fill statement id username email)

-- A missing value ends the chain.
infixl 5 ◌>>=◌
abbrev pub ◌>>=◌ : {A B : Type 0} → Option A → (A → Option B) → Option B
none >>= k = none
some a >>= k = k a

-- The columns of a query: the three tokens behind its first one, the keyword.
unfoldable pub query_columns : List ℕ → Option (List ℕ × List ℕ × List ℕ)
query_columns query = do
  (keyword, s) ← strtok query
  (id_string, s) ← strtok s
  (username, s) ← strtok s
  (email, s) ← strtok s
  some (id_string, username, email)

-- The id is read and the columns are checked; a query without three columns is a syntax error.
-- `none`: the behaviour is undefined, since the id is outside the range of `atoi`.
unfoldable pub prepare_columns :
    Option (List ℕ × List ℕ × List ℕ) → Statement → Option (StatementPrepareResult × Statement)
unfolding check_columns
prepare_columns none statement = some (syntax_error, statement)
prepare_columns (some (id_string, username, email)) statement = do
  id ← atoi id_string
  some (check_columns id username email statement)

unfoldable pub statement_prepare_insert :
    (query : List ℕ) → Statement → Option (StatementPrepareResult × Statement)
unfolding query_columns prepare_columns
statement_prepare_insert query statement =
    prepare_columns (query_columns query) (record statement { type = insert })

unfoldable pub statement_prepare :
    (query : List ℕ) → Statement → Option (StatementPrepareResult × Statement)
unfolding statement_prepare_insert
statement_prepare query statement =
    if starts_with (take statement_insert_command_size (bytes "insert")) query
    then statement_prepare_insert query statement
    else if equals query (bytes "select")
    then some (success, record statement { type = select })
    else some (unrecognized, statement)
