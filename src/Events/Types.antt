-- ===== src/Events/Types.antt =====
-- packages/core/src/domain/types/events.types.ts. `P` is the type of percentages and `D` that of the
-- parts that are passed on unread: a step's detail and a run's result.
use nodejs_movy_data.Prelude.{ℕ, String, Bool, Option, List, Dict}

pub data LogLevel : Type 0 where
  debug info warn error : LogLevel

pub record SafeEndpoint : Type 0 where
  pub engine : String
  pub database : String

pub record SerialisedError : Type 0 where
  pub name : String
  pub message : String

-- packages/core/src/domain/types/migration.types.ts
pub record TableMigrationPlan : Type 0 where
  pub load_order : List String
  pub cleanup_order : List String
  pub levels : List (List String)
  pub cyclic_tables : List String

-- `MigrationEventInput`: what producers emit, without runId, seq and at.
pub data EventInput (P D : Type 0) : Type 0 where
  run_started : (mode : String) (source target : SafeEndpoint) → EventInput P D
  run_finished :
      (status : String) (duration_ms : ℕ) (result : Option D) (error : Option SerialisedError)
      → EventInput P D
  step_started : (step_id : String) (ordinal : ℕ) → EventInput P D
  step_finished :
      (step_id status : String) (duration_ms : ℕ) (detail : Option D)
      (error : Option SerialisedError)
      → EventInput P D
  plan_ready :
      (plan : TableMigrationPlan) (row_estimates : Dict ℕ) (worker_count : ℕ) → EventInput P D
  table_progress : (table_name : String) (rows_done rows_total : ℕ) (pct : P) → EventInput P D
  table_finished :
      (table_name : String) (rows_copied duration_ms : ℕ) (success : Bool) (error : Option String)
      → EventInput P D
  overall_progress :
      (rows_done rows_total : ℕ) (pct : P) (tables_done tables_total : ℕ) → EventInput P D
  log : (level : LogLevel) (message : String) (step_id : Option String) → EventInput P D

pub record MigrationEvent (P D : Type 0) : Type 0 where
  pub run_id : String
  pub seq : ℕ
  pub at : String
  pub body : EventInput P D
