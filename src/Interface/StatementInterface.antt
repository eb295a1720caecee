-- ===== src/Interface/StatementInterface.antt =====
-- include/statement.h, which src/statement.c implements.
use gnaro.Base.{ℕ, List, Option}
use gnaro.Memory.{Cmd}
use gnaro.Row.{Row}
use gnaro.Pager.{Env}
use gnaro.Statement.Prepare.{
  Statement, StatementPrepareResult, statement_prepare, statement_prepare_insert,
}
use gnaro.Statement.Execute.{
  StatementExecuteResult, statement_execute, statement_execute_insert, statement_execute_select,
}
use gnaro.Interface.DatabaseInterface.{Database}

-- Preparing fills the statement in, `none` if the behaviour is undefined; executing a select gives
-- the rows that it prints.
pub record StatementInterface : Type 0 where
  pub prepare : (query : List ℕ) → Statement → Option (StatementPrepareResult × Statement)
  pub prepare_insert : (query : List ℕ) → Statement → Option (StatementPrepareResult × Statement)
  pub execute : Statement → Database → Cmd (List Row × StatementExecuteResult)
  pub execute_insert : Statement → Database → Cmd StatementExecuteResult
  pub execute_select : Database → Cmd (List Row × StatementExecuteResult)

-- src/statement.c.
abbrev pub statement_functions : Env → (fuel : ℕ) → StatementInterface
statement_functions env fuel = record {
  prepare = statement_prepare;
  prepare_insert = statement_prepare_insert;
  execute = λ statement d. statement_execute env fuel d.root_page_num statement;
  execute_insert = λ statement d. statement_execute_insert env fuel d.root_page_num statement;
  execute_select = λ d. statement_execute_select env fuel d.root_page_num;
}
