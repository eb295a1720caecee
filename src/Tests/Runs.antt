-- ===== src/Tests/Runs.antt =====
-- Runs on a new database, with the system of the tests.
use gnaro.Base.{ℕ, ◌≡◌, refl, List, [], ◌∷◌, ◌++◌, map}
use gnaro.Memory.{
  ◌>>=◌, pure, ◌>>◌, access, load8, load32, store8, store32, store_bytes, load_bytes, memcpy,
  update,
}
use gnaro.Memory.Bytes.{word, set_word, blit, word_byte, write_bytes, read_bytes}
use gnaro.Row.{Row, c_string, row_serialize, row_deserialize, strncpy}
use gnaro.Pager.{pager_get_page, pager_get_unused_page_num, load_page, read_page, pager_open}
use gnaro.Btree.Node.{
  node_get_type, node_set_type, node_is_root, node_set_root, type_of_byte, byte_of_type,
  byte_of_bool,
}
use gnaro.Btree.Leaf.{leaf_cell, leaf_init, leaf_find, leaf_find_loop}
use gnaro.Btree.Internal.{
  internal_cell, internal_child, internal_init, internal_find_child, find_child_loop,
  internal_update_key, internal_find,
}
use gnaro.Btree.Root.{
  node_get_max_key, node_new_root, set_child_parent, adopt_loop, adopt_children, init_children,
}
use gnaro.Btree.Grow.{
  internal_make_room, internal_place, internal_insert_with, internal_insert,
  internal_split_and_insert, split_halves, split_parent, split_finish, move_loop,
}
use gnaro.Btree.Insert.{leaf_make_room, divide_loop, leaf_split_and_insert, leaf_insert}
use gnaro.Cursor.{cursor_find_key, cursor_start, cursor_advance, cursor_value}
use gnaro.Database.{database_open, open_with, init_root}
use gnaro.Statement.Execute.{
  StatementExecuteResult, statement_execute, success, duplicate_key, statement_execute_insert,
  statement_execute_select, select_loop,
}
use gnaro.Input.{input_read, getline, after_line, without_last}
use gnaro.Meta.{meta_execute_command}
use gnaro.Repl.{
  Answer, printed, unrecognized_command, failed_to_prepare, executed, repl_loop, run_line,
  run_prepared, meta_answer,
}
use gnaro.Btree.Print.{Line, leaf_line, leaf_key_line, btree_print, print_leaf_keys}
use gnaro.Statement.Text.{
  starts_with, equals, strtok, token, after_token, skip_spaces, strcpy, atoi, skip_white,
}
use gnaro.Statement.Prepare.{
  bytes, statement_prepare, statement_prepare_insert, query_columns, prepare_columns, check_columns,
  fill,
}
use gnaro.Tests.Data.{
  env, fresh_statement, Outcome, returned, left_by_exit, run, insert_ids, select_ids, count_up,
}

program : Unit {0}
unfolding access load8 load32 store8 store32 store_bytes load_bytes memcpy update word set_word blit
    word_byte write_bytes read_bytes row_serialize row_deserialize strncpy pager_get_page
    pager_get_unused_page_num load_page read_page pager_open node_get_type node_set_type
    node_is_root node_set_root type_of_byte byte_of_type byte_of_bool leaf_cell leaf_init leaf_find
    leaf_find_loop internal_cell internal_child internal_init internal_find_child find_child_loop
    internal_update_key internal_find node_get_max_key node_new_root set_child_parent adopt_loop
    adopt_children init_children internal_make_room internal_place internal_insert_with
    internal_insert internal_split_and_insert split_halves split_parent split_finish move_loop
    leaf_make_room divide_loop leaf_split_and_insert leaf_insert cursor_find_key cursor_start
    cursor_advance cursor_value database_open open_with init_root statement_execute_insert
    statement_execute_select select_loop run insert_ids select_ids
program = tt

-- Rows come back in the order of their ids, and a repeated id is refused.
one_leaf : run (insert_ids (5 ∷ 3 ∷ 9 ∷ 3 ∷ []) >> select_ids) ≡ returned (3 ∷ 5 ∷ 9 ∷ [])
unfolding program
one_leaf = refl

-- The 14th row splits the root, the 21st and the 28th a leaf under it.
four_leaves : run (insert_ids (count_up 1 30) >> select_ids) ≡ returned (count_up 1 30)
unfolding program
four_leaves = refl

-- The 35th ascending row needs a fourth key in the root, and the program exits.
full_root : run (insert_ids (count_up 1 35)) ≡ left_by_exit
unfolding program
full_root = refl

-- Once the root is internal, the id of a row in the table may be inserted again.
repeated_id : run (insert_ids (count_up 1 14) >> insert_ids (14 ∷ [])) ≡ returned (success ∷ [])
unfolding program
repeated_id = refl

-- There, the id 2 is refused although no row has it: it is the page number of the first child.
new_id : run (insert_ids (count_up 10 14) >> insert_ids (2 ∷ [])) ≡ returned (duplicate_key ∷ [])
unfolding program
new_id = refl

-- A session in text: the second insert repeats an id, the last line is cut short by the end of the
-- input and so not recognised.
typed : List ℕ
typed =
    bytes "insert 2 bob b@x"
    ++ 10 ∷ bytes "insert 2 eve e@x"
    ++ 10 ∷ bytes "select"
    ++ 10 ∷ bytes ".btree"
    ++ 10 ∷ bytes ".exit"

-- What a round shows, with the ids for the rows.
data Shown : Type 0 where
  tree : List Line → Shown
  refused ill_formed : Shown
  done : List ℕ → StatementExecuteResult → Shown

shown : Answer → Shown
shown (printed lines) = tree lines
shown unrecognized_command = refused
shown (failed_to_prepare _) = ill_formed
shown (executed rows result) = done (map (λ (r : Row). r.id) rows) result

session : Outcome (List Shown)
unfolding program repl_loop run_line run_prepared meta_answer meta_execute_command btree_print
    print_leaf_keys input_read getline after_line without_last c_string starts_with equals
    statement_prepare statement_prepare_insert query_columns prepare_columns check_columns fill
    strtok token after_token skip_spaces strcpy atoi skip_white statement_execute
session =
    run (do answers ← repl_loop env 50 (λ _. fresh_statement) 100 typed; pure (map shown answers))

session_shown :
    session
    ≡ returned (
        done [] success
        ∷ done [] duplicate_key
        ∷ done (2 ∷ []) success
        ∷ tree (leaf_line 0 1 ∷ leaf_key_line 1 2 ∷ [])
        ∷ refused
        ∷ [])
unfolding session typed shown
session_shown = refl
