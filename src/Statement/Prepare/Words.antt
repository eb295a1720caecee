-- ===== src/Statement/Prepare/Words.antt =====
-- How a query of words is taken apart, and what the checks on its columns let through.
use gnaro.Base.{
  ℕ, ◌+◌, ◌≡◌, ◌≢◌, refl, ap, inl, inr, some, arith, ltb, ◌==◌, true, false, Bool-cases,
  if◌then◌else◌, List, [], ◌∷◌, ◌++◌, ◌||◌, length, drop,
}
use gnaro.Row.{c_string}
use gnaro.Statement.Text.{
  ℤ, pos, negsuc, starts_with, skip_spaces, token, after_token, strtok, strcpy, atoi,
}
use gnaro.Statement.Prepare.{
  StatementPrepareResult, success, string_too_long, negative_id, insert, Statement, fill,
  check_columns, query_columns, statement_prepare_insert, statement_prepare, bytes,
}

-- No byte of the text is a space.
abbrev pub HasNoSpace : List ℕ → Type 0
HasNoSpace [] = Unit
HasNoSpace (c ∷ s) = ((c == b' ') ≡ false) × HasNoSpace s

-- A word: some bytes, none of them a space.
abbrev pub IsWord : List ℕ → Type 0
IsWord s = (s ≢ []) × HasNoSpace s

token_word : (w s : List ℕ) → HasNoSpace w → token (w ++ b' ' ∷ s) ≡ w
unfolding token
token_word [] s h = refl
token_word (c ∷ w) s h = rw h.0 (ap (λ t. c ∷ t) (token_word w s h.1))

after_token_word : (w s : List ℕ) → HasNoSpace w → after_token (w ++ b' ' ∷ s) ≡ s
unfolding after_token
after_token_word [] s h = refl
after_token_word (c ∷ w) s h = rw h.0 (after_token_word w s h.1)

token_last : (w : List ℕ) → HasNoSpace w → token w ≡ w
unfolding token
token_last [] h = refl
token_last (c ∷ w) h = rw h.0 (ap (λ t. c ∷ t) (token_last w h.1))

after_token_last : (w : List ℕ) → HasNoSpace w → after_token w ≡ []
unfolding after_token
after_token_last [] h = refl
after_token_last (c ∷ w) h = rw h.0 (after_token_last w h.1)

skip_spaces_word : (c : ℕ) (w : List ℕ) → (c == b' ') ≡ false → skip_spaces (c ∷ w) ≡ c ∷ w
unfolding skip_spaces
skip_spaces_word c w h = rw h refl

-- `strtok` on a query that starts with a word and a space.
pub strtok_word : (w s : List ℕ) → IsWord w → strtok (w ++ b' ' ∷ s) ≡ some (w, s)
unfolding strtok
strtok_word [] s h = absurd (h.0 refl)
strtok_word (c ∷ w) s h = rw (
  skip_spaces_word c (w ++ b' ' ∷ s) h.1.0,
  token_word (c ∷ w) s h.1,
  after_token_word (c ∷ w) s h.1,
)

-- `strtok` on a query that is one word.
pub strtok_last : (w : List ℕ) → IsWord w → strtok w ≡ some (w, [])
unfolding strtok
strtok_last [] h = absurd (h.0 refl)
strtok_last (c ∷ w) h =
    rw (skip_spaces_word c w h.1.0, token_last (c ∷ w) h.1, after_token_last (c ∷ w) h.1)

-- The query of four words.
abbrev pub four_words : (keyword id_string username email : List ℕ) → List ℕ
four_words keyword id_string username email =
    keyword ++ b' ' ∷ (id_string ++ b' ' ∷ (username ++ b' ' ∷ email))

query_columns_words :
    (keyword id_string username email : List ℕ)
    → IsWord keyword
    → IsWord id_string
    → IsWord username
    → IsWord email
    → query_columns (four_words keyword id_string username email)
      ≡ some (id_string, username, email)
unfolding query_columns
query_columns_words k i u e hk hi hu he = rw (
  strtok_word k (i ++ b' ' ∷ (u ++ b' ' ∷ e)) hk,
  strtok_word i (u ++ b' ' ∷ e) hi,
  strtok_word u e hu,
  strtok_last e he,
)

starts_with-append :
    (prefix w s : List ℕ) → starts_with prefix w ≡ true → starts_with prefix (w ++ s) ≡ true
unfolding starts_with
starts_with-append [] w s h = refl
starts_with-append (p ∷ ps) [] s h = cc
starts_with-append (p ∷ ps) (c ∷ w) s h = ground (arith, starts_with-append ps w s)

-- The result for the columns of an insert.
abbrev pub column_result : ℤ → (username email : List ℕ) → StatementPrepareResult
column_result (negsuc n) username email = negative_id
column_result (pos n) username email =
    if ltb 32 (length username) || ltb 255 (length email) then string_too_long else success

c_string-append : (s t : List ℕ) → c_string (s ++ 0 ∷ t) ≡ c_string s
unfolding c_string
c_string-append [] t = refl
c_string-append (c ∷ s) t = ground (arith, c_string-append s t)

c_string-strcpy : (d s : List ℕ) → c_string (strcpy d s) ≡ c_string s
unfolding strcpy
c_string-strcpy d s = c_string-append s (drop (length s + 1) d)

check_columns-result :
    (id : ℤ) (username email : List ℕ) (statement : Statement)
    → (st : Statement) × (check_columns id username email statement
        ≡ (column_result id username email, st))
      × (st.type ≡ statement.type)
      × (column_result id username email ≡ success
          → (pos st.row_to_insert.id ≡ id)
            × (c_string st.row_to_insert.username ≡ c_string username)
            × (c_string st.row_to_insert.email ≡ c_string email))
unfolding check_columns
check_columns-result (negsuc n) u e statement = (statement, refl, refl, λ h. cc)
check_columns-result (pos n) u e statement = elim (Bool-cases (ltb 32 (length u))) [
  | inl long ↦ (statement, rw long refl, refl, λ h. absurd (ground arith))
  | inr short ↦ elim (Bool-cases (ltb 255 (length e))) [
    | inl long ↦ (statement, rw (short, long) refl, refl, λ h. absurd (ground arith))
    | inr short' ↦ (fill statement n u e, rw (short, short') refl, filled.0, λ h. filled.1)
  ]
]
  where
    filled :
        ((fill statement n u e).type ≡ statement.type)
        × ((pos (fill statement n u e).row_to_insert.id ≡ pos n)
            × (c_string (fill statement n u e).row_to_insert.username ≡ c_string u)
            × (c_string (fill statement n u e).row_to_insert.email ≡ c_string e))
    filled =
        unfold fill in
        (
          refl,
          (
            refl,
            c_string-strcpy statement.row_to_insert.username u,
            c_string-strcpy statement.row_to_insert.email e,
          ),
        )

-- An insert written as four words, the first of which starts with `insert`, whose second word has a
-- value that an `int` holds: a negative value gives `negative_id`, else a name of more than 32 or an
-- address of more than 255 bytes gives `string_too_long`, and all other such queries succeed; then
-- the statement is an insert of a row with that id, name and address.
pub prepare-four_words :
    (keyword id_string username email : List ℕ) (id : ℤ) (statement : Statement)
    → starts_with (bytes "insert") keyword ≡ true
    → IsWord keyword
    → IsWord id_string
    → IsWord username
    → IsWord email
    → atoi id_string ≡ some id
    → (st : Statement) × (statement_prepare (four_words keyword id_string username email) statement
        ≡ some (column_result id username email, st))
      × (st.type ≡ insert)
      × (column_result id username email ≡ success
          → (pos st.row_to_insert.id ≡ id)
            × (c_string st.row_to_insert.username ≡ c_string username)
            × (c_string st.row_to_insert.email ≡ c_string email))
unfolding statement_prepare
prepare-four_words k i u e id statement starts hk hi hu he value =
    let (st, runs, type, facts) =
      check_columns-result id u e (record statement { type = insert }) in
    (
      st,
      rw (
        starts_with-append (bytes "insert") k (b' ' ∷ (i ++ b' ' ∷ (u ++ b' ' ∷ e))) starts,
        prepared,
        runs,
      ),
      type,
      facts,
    )
  where
    prepared :
        statement_prepare_insert (four_words k i u e) statement
        ≡ some (check_columns id u e (record statement { type = insert }))
    prepared =
        unfold statement_prepare_insert in rw (query_columns_words k i u e hk hi hu he, value)
