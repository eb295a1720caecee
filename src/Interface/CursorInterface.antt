-- ===== src/Interface/CursorInterface.antt =====
-- include/cursor.h, which src/cursor.c implements.
use gnaro.Base.{ℕ}
use gnaro.Memory.{Cmd, pure}
use gnaro.Pager.{Env}
use gnaro.Btree.Leaf.{Cursor}
use gnaro.Cursor.{cursor_start, cursor_find_key, cursor_advance, cursor_value}
use gnaro.Interface.DatabaseInterface.{Database}

-- A cursor that moves is a new cursor, and the place of a row is a page and an offset in it.
pub record CursorInterface : Type 0 where
  pub start : Database → Cmd Cursor
  pub find_key : Database → (key : ℕ) → Cmd Cursor
  pub advance : Cursor → Cmd Cursor
  pub value : Cursor → Cmd (ℕ × ℕ)
  pub close : Cursor → Cmd (Unit {0})

-- src/cursor.c. Closing a cursor gives its memory back, and no later command refers to it.
abbrev pub cursor_functions : Env → (fuel : ℕ) → CursorInterface
cursor_functions env fuel = record {
  start = λ d. cursor_start env fuel d.root_page_num;
  find_key = λ d key. cursor_find_key env fuel d.root_page_num key;
  advance = cursor_advance env;
  value = cursor_value env;
  close = λ cursor. pure tt;
}
