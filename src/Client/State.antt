-- ===== src/Client/State.antt =====
-- The wire types of apps/web/shared/run-wire.ts and the view types of run-reducer.ts. Payload fields that
-- the reducer reads with a default are optional; numbers are whole, and percentages are the platform's.
use nodejs_movy_data.Prelude.{ℕ, String, Bool, Option, List, Dict}

-- What the reducer asks of JavaScript that is not modelled: floating-point percentages and
-- `localeCompare`, of which it reads whether the result is negative.
pub record Platform (P : Type 0) : Type 0 where
  pub nought : P
  pub hundred : P
  pub larger : P → P → P
  pub smaller : P → P → P
  -- `(done / total) * 100`
  pub share : ℕ → ℕ → P
  pub locale_lt : String → String → Bool

pub record ErrorView : Type 0 where
  pub name : String
  pub message : String

pub record Endpoint : Type 0 where
  pub engine : String
  pub database : String

pub record Progress (P : Type 0) : Type 0 where
  pub rows_done : ℕ
  pub rows_total : ℕ
  pub tables_done : ℕ
  pub tables_total : ℕ
  pub pct : P

pub record WireRun (P : Type 0) : Type 0 where
  pub id : String
  pub status : String
  pub mode : String
  pub simulated : Bool
  pub runner_class : String
  pub source : Endpoint
  pub target : Endpoint
  pub progress : Progress P
  pub last_seq : ℕ
  pub error : Option ErrorView
  pub created_at : String
  pub started_at : Option String
  pub finished_at : Option String
  pub duration_ms : Option ℕ
  pub definition_id : Option String
  pub definition_name : Option String

pub record WireRunStatus : Type 0 where
  pub id : String
  pub status : String
  pub error : Option ErrorView
  pub started_at : Option String
  pub finished_at : Option String

-- A step's detail is passed on unread.
pub record WireStep (D : Type 0) : Type 0 where
  pub step_id : String
  pub status : String
  pub detail : Option D
  pub duration_ms : Option ℕ
  pub error : Option ErrorView

pub record WireTable (P : Type 0) : Type 0 where
  pub table_name : String
  pub status : String
  pub rows_done : ℕ
  pub rows_total : ℕ
  pub pct : P
  pub duration_ms : Option ℕ
  pub error : Option String

pub data Payload (P D : Type 0) : Type 0 where
  run_started : Payload P D
  run_finished : (status : String) (duration_ms : Option ℕ) (error : Option ErrorView) → Payload P D
  step_started : (step_id : String) → Payload P D
  step_finished :
      (step_id status : String) (duration_ms : Option ℕ) (detail : Option D)
      (error : Option ErrorView)
      → Payload P D
  plan_ready : (load_order : List String) (estimates : Dict ℕ) → Payload P D
  table_progress :
      (table_name : String) (rows_done rows_total : Option ℕ) (pct : Option P) → Payload P D
  table_finished :
      (table_name : String) (rows_copied : Option ℕ) (success : Bool) (duration_ms : Option ℕ)
      (error : Option String)
      → Payload P D
  overall_progress : (rows_done rows_total tables_done tables_total : Option ℕ) → Payload P D
  log : (message step_id : Option String) → Payload P D
  unknown : Payload P D

pub record WireEvent (P D : Type 0) : Type 0 where
  pub seq : ℕ
  pub at : String
  pub level : Option String
  pub payload : Payload P D

pub data StepStatus : Type 0 where
  pending running ok failed skipped : StepStatus

pub data TableStatus : Type 0 where
  pending running done failed : TableStatus

pub record StepView (D : Type 0) : Type 0 where
  pub step_id : String
  pub label : String
  pub status : StepStatus
  pub duration_ms : Option ℕ
  pub error : Option ErrorView
  pub detail : Option D

pub record TableView (P : Type 0) : Type 0 where
  pub table_name : String
  pub status : TableStatus
  pub rows_done : ℕ
  pub rows_total : ℕ
  pub pct : P
  pub duration_ms : Option ℕ
  pub error : Option String

pub record LogLine : Type 0 where
  pub seq : ℕ
  pub at : String
  pub level : String
  pub message : String
  pub step_id : Option String

pub record RunState (P D : Type 0) : Type 0 where
  pub run : Option (WireRun P)
  pub steps : List (StepView D)
  pub tables : List (TableView P)
  pub logs : List LogLine
  pub last_seq : ℕ
  pub logs_withheld : Bool

pub data Cohort : Type 0 where
  full redacted : Cohort

pub data ServerFrame (P D : Type 0) : Type 0 where
  hello : ServerFrame P D
  snapshot :
      (run : WireRun P) (steps : List (WireStep D)) (tables : List (WireTable P))
      (events : List (WireEvent P D)) (last_seq : ℕ) (cohort : Cohort)
      → ServerFrame P D
  events : (run_id : String) (events : List (WireEvent P D)) → ServerFrame P D
  run_status : (run : WireRunStatus) → ServerFrame P D
  cohort_changed : (cohort : Cohort) → ServerFrame P D
  revoked : (reason : String) → ServerFrame P D
  error : (message : String) → ServerFrame P D
