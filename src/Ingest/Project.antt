-- ===== src/Ingest/Project.antt =====
-- apps/runner/src/agent/run-projection.ts. An optional field of a patch is a `Slot`, since a spread
-- overwrites a field that is given, with `undefined` too, and keeps one that is absent.
use nodejs_movy_data.Prelude.{
  ℕ, ◌+◌, Bool, not, ◌&&◌, String, Option, none, some, List, [], ◌∷◌, ◌++◌, max, Dict, lookup,
  insert, values, length, if◌then◌else◌, get_or,
}
use nodejs_movy_data.Events.Types.{EventInput, MigrationEvent, SerialisedError, LogLevel}
use nodejs_movy_data.Client.State.{Platform, TableStatus}
use nodejs_movy_data.Client.Fold.{is_over, run_step_order, index_from}

pub data Slot (A : Type 0) : Type 0 where
  absent : Slot A
  given : A → Slot A

abbrev pub over : {A : Type 0} → Slot A → Slot A → Slot A
over (given a) old = given a
over absent old = old

abbrev pub slot_or : {A : Type 0} → Slot A → A → A
slot_or (given a) d = a
slot_or absent d = d

pub record RunPatch : Type 0 where
  pub status : Slot String
  pub last_seq : Slot ℕ
  pub rows_done : Slot ℕ
  pub rows_total : Slot ℕ
  pub tables_done : Slot ℕ
  pub tables_total : Slot ℕ
  pub started_at : Slot String
  pub finished_at : Slot String
  pub duration_ms : Slot ℕ
  pub error_name : Slot (Option String)
  pub error_message : Slot (Option String)

abbrev pub empty_patch : RunPatch
empty_patch = record {
  status = absent;
  last_seq = absent;
  rows_done = absent;
  rows_total = absent;
  tables_done = absent;
  tables_total = absent;
  started_at = absent;
  finished_at = absent;
  duration_ms = absent;
  error_name = absent;
  error_message = absent;
}

pub record StepPatch (D : Type 0) : Type 0 where
  pub step_id : String
  pub ordinal : ℕ
  pub status : String
  pub detail : Slot (Option D)
  pub error_name : Slot (Option String)
  pub error_message : Slot (Option String)
  pub duration_ms : Slot ℕ
  pub started_at : Slot String
  pub finished_at : Slot String

pub record TablePatch (P : Type 0) : Type 0 where
  pub table_name : String
  pub status : TableStatus
  pub rows_done : ℕ
  pub rows_total : ℕ
  pub pct : P
  pub duration_ms : Slot ℕ
  pub error : Slot (Option String)
  pub finished_at : Slot String

pub record EventRow (P D : Type 0) : Type 0 where
  pub run_id : String
  pub seq : ℕ
  pub type : String
  pub at : String
  pub level : Option LogLevel
  pub payload : MigrationEvent P D

-- The variables of the loop; `Projection` has the same parts, the maps' values as lists.
pub record Projected (P D : Type 0) : Type 0 where
  pub rows : List (EventRow P D)
  pub run : RunPatch
  pub steps : Dict (StepPatch D)
  pub tables : Dict (TablePatch P)

pub record Projection (P D : Type 0) : Type 0 where
  pub events : List (EventRow P D)
  pub run : RunPatch
  pub steps : List (StepPatch D)
  pub tables : List (TablePatch P)

abbrev error_name_of : Option SerialisedError → Option String
error_name_of none = none
error_name_of (some e) = some e.name

abbrev error_message_of : Option SerialisedError → Option String
error_message_of none = none
error_message_of (some e) = some e.message

-- `ORDINALS.get(stepId) ?? ORDINALS.size`
unfoldable pub step_ordinal : String → ℕ
unfolding index_from
step_ordinal id = get_or (index_from 0 id run_step_order) (length run_step_order)

module _ {P D : Type 0} where
  unfoldable pub event_type : EventInput P D → String
  event_type (EventInput.run_started mode source target) = "run_started"
  event_type (EventInput.run_finished status duration_ms result error) = "run_finished"
  event_type (EventInput.step_started step_id ordinal) = "step_started"
  event_type (EventInput.step_finished step_id status duration_ms detail error) = "step_finished"
  event_type (EventInput.plan_ready plan row_estimates worker_count) = "plan_ready"
  event_type (EventInput.table_progress name rows_done rows_total pct) = "table_progress"
  event_type (EventInput.table_finished name rows_copied duration_ms success error) =
      "table_finished"
  event_type (EventInput.overall_progress rows_done rows_total pct tables_done tables_total) =
      "overall_progress"
  event_type (EventInput.log level message step_id) = "log"

  abbrev level_of : EventInput P D → Option LogLevel
  level_of (EventInput.log level message step_id) = some level
  level_of _ = none

  unfoldable pub event_row : MigrationEvent P D → EventRow P D
  unfolding event_type
  event_row e = record {
    run_id = e.run_id;
    seq = e.seq;
    type = event_type e.body;
    at = e.at;
    level = level_of e.body;
    payload = e;
  }

unfoldable pub merge_step : {D : Type 0} → StepPatch D → StepPatch D → StepPatch D
merge_step existing patch = record {
  step_id = patch.step_id;
  ordinal = patch.ordinal;
  status = patch.status;
  detail = over patch.detail existing.detail;
  error_name = over patch.error_name existing.error_name;
  error_message = over patch.error_message existing.error_message;
  duration_ms = over patch.duration_ms existing.duration_ms;
  started_at = over patch.started_at existing.started_at;
  finished_at = over patch.finished_at existing.finished_at;
}

-- `existing ? … : patch`
abbrev pub over_step : {D : Type 0} → StepPatch D → Option (StepPatch D) → StepPatch D
over_step patch none = patch
over_step patch (some existing) = merge_step existing patch

unfoldable pub upsert_step : {D : Type 0} → StepPatch D → Dict (StepPatch D) → Dict (StepPatch D)
upsert_step patch m = insert patch.step_id (over_step patch (lookup patch.step_id m)) m

unfoldable pub merge_table : {P : Type 0} → TablePatch P → TablePatch P → TablePatch P
merge_table existing patch =
    if is_over existing.status && not (is_over patch.status)
    then record existing { rows_total = max existing.rows_total patch.rows_total }
    else record {
      table_name = patch.table_name;
      status = patch.status;
      rows_done = patch.rows_done;
      rows_total = patch.rows_total;
      pct = patch.pct;
      duration_ms = over patch.duration_ms existing.duration_ms;
      error = over patch.error existing.error;
      finished_at = over patch.finished_at existing.finished_at;
    }

-- `existing ? … : patch`
abbrev pub over_table : {P : Type 0} → TablePatch P → Option (TablePatch P) → TablePatch P
over_table patch none = patch
over_table patch (some existing) = merge_table existing patch

unfoldable pub upsert_table :
    {P : Type 0} → TablePatch P → Dict (TablePatch P) → Dict (TablePatch P)
upsert_table patch m = insert patch.table_name (over_table patch (lookup patch.table_name m)) m

module _ {P : Type 0} ⦃o : Platform P⦄ where
  abbrev plain_table : String → TableStatus → ℕ → ℕ → P → TablePatch P
  plain_table name status rows_done rows_total pct = record {
    table_name = name;
    status = status;
    rows_done = rows_done;
    rows_total = rows_total;
    pct = pct;
    duration_ms = absent;
    error = absent;
    finished_at = absent;
  }

  -- The loop of `plan_ready`, which returns the total as well.
  unfoldable pub plan_tables :
      Dict ℕ → List String → Dict (TablePatch P) → ℕ → Dict (TablePatch P) × ℕ
  plan_tables estimates [] m total = (m, total)
  plan_tables estimates (name ∷ names) m total =
      let rows_total = get_or (lookup name estimates) 0 in
      plan_tables estimates names
        (upsert_table (plain_table name TableStatus.pending 0 rows_total o.nought) m)
        (total + rows_total)

  unfoldable pub finished_table :
      Dict (TablePatch P) → String → String → ℕ → ℕ → Bool → Option String → TablePatch P
  finished_table m at name rows_copied duration_ms success error =
      let existing = lookup name m in
      record {
        table_name = name;
        status = if success then TableStatus.done else TableStatus.failed;
        rows_done = rows_copied;
        rows_total = max rows_copied (elim existing [ none ↦ 0 | some t ↦ t.rows_total ]);
        pct = if success then o.hundred else elim existing [ none ↦ o.nought | some t ↦ t.pct ];
        duration_ms = given duration_ms;
        error = given error;
        finished_at = given at;
      }

module _ {P D : Type 0} ⦃o : Platform P⦄ where
  -- The `switch`.
  unfoldable pub project_body : String → EventInput P D → Projected P D → Projected P D
  unfolding step_ordinal
  project_body at (EventInput.run_started mode source target) s = record s {
    run = record (s.run) { status = given "running"; started_at = given at };
  }
  project_body at (EventInput.run_finished status duration_ms result error) s = record s {
    run = record (s.run) {
      status = given status;
      finished_at = given at;
      duration_ms = given duration_ms;
      error_name = given (error_name_of error);
      error_message = given (error_message_of error);
    };
  }
  project_body at (EventInput.step_started step_id ordinal) s = record s {
    steps =
        upsert_step
          (record {
            step_id = step_id;
            ordinal = ordinal;
            status = "running";
            detail = absent;
            error_name = absent;
            error_message = absent;
            duration_ms = absent;
            started_at = given at;
            finished_at = absent;
          })
          s.steps;
  }
  project_body at (EventInput.step_finished step_id status duration_ms detail error) s = record s {
    steps =
        upsert_step
          (record {
            step_id = step_id;
            ordinal = step_ordinal step_id;
            status = status;
            detail = given detail;
            error_name = given (error_name_of error);
            error_message = given (error_message_of error);
            duration_ms = given duration_ms;
            started_at = absent;
            finished_at = given at;
          })
          s.steps;
  }
  project_body at (EventInput.plan_ready plan row_estimates worker_count) s =
      let (tables, total) = plan_tables row_estimates plan.load_order s.tables 0 in
      record s {
        run = record (s.run) {
          tables_total = given (length plan.load_order);
          rows_total = given total;
        };
        tables = tables;
      }
  project_body at (EventInput.table_progress name rows_done rows_total pct) s = record s {
    tables = upsert_table (plain_table name TableStatus.running rows_done rows_total pct) s.tables;
  }
  project_body at (EventInput.table_finished name rows_copied duration_ms success error) s =
      record s {
        tables =
            upsert_table (finished_table s.tables at name rows_copied duration_ms success error)
              s.tables;
      }
  project_body at (EventInput.overall_progress rows_done rows_total pct tables_done tables_total)
        s =
      record s {
        run = record (s.run) {
          rows_done = given rows_done;
          rows_total = given rows_total;
          tables_done = given tables_done;
          tables_total = given tables_total;
        };
      }
  project_body at (EventInput.log level message step_id) s = s

  unfoldable pub project_event : MigrationEvent P D → Projected P D → Projected P D
  project_event e s = project_body e.at e.body (record s {
    rows = s.rows ++ event_row e ∷ [];
    run = record (s.run) { last_seq = given (max (slot_or s.run.last_seq 0) e.seq) };
  })

  unfoldable pub project_loop : List (MigrationEvent P D) → Projected P D → Projected P D
  project_loop [] s = s
  project_loop (e ∷ es) s = project_loop es (project_event e s)

  unfoldable pub empty_projected : Projected P D
  empty_projected = record { rows = []; run = empty_patch; steps = []; tables = [] }

  unfoldable pub project_events : List (MigrationEvent P D) → Projection P D
  project_events es =
      let s = project_loop es empty_projected in
      record { events = s.rows; run = s.run; steps = values s.steps; tables = values s.tables }
