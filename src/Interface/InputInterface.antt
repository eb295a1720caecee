-- ===== src/Interface/InputInterface.antt =====
-- include/input.h and include/meta.h, which src/input.c and src/meta.c implement.
use gnaro.Base.{ℕ, List, Option}
use gnaro.Memory.{Cmd}
use gnaro.Pager.{Env}
use gnaro.Btree.Print.{Line}
use gnaro.Input.{InputBuffer, input_new_buffer, input_prompt, read_into}
use gnaro.Meta.{MetaCommandResult, meta_execute_command}

-- `none` is the answer -1 of a failed read; a read takes from the standard input and leaves the rest
-- of it. Closing gives the buffer's memory back.
pub record InputInterface : Type 0 where
  pub new_buffer : InputBuffer
  pub prompt : (text : List ℕ) → List ℕ
  pub read : List ℕ → InputBuffer → Option (InputBuffer × List ℕ)
  pub close_buffer : InputBuffer → Unit {0}

-- src/input.c.
abbrev pub input_functions : InputInterface
input_functions = record {
  new_buffer = input_new_buffer;
  prompt = input_prompt;
  read = read_into;
  close_buffer = λ input_buffer. tt;
}

-- The lines that a meta command prints, and its result.
pub record MetaInterface : Type 0 where
  pub execute_command : (command : List ℕ) → Cmd (List Line × MetaCommandResult)

-- src/meta.c.
abbrev pub meta_functions : Env → (fuel : ℕ) → MetaInterface
meta_functions env fuel = record { execute_command = meta_execute_command env fuel }
