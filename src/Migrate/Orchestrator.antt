-- ===== src/Migrate/Orchestrator.antt =====
-- `MigrationOrchestrator` of
-- packages/core/src/application/services/migration-orchestrator.service.ts with the use cases that it
-- runs. What goes to the logger is left out; times are differences that stop at 0.
use Prim.Native.String.{◌++◌ as append}
use nodejs_movy_data.Prelude.{
  ℕ, zero, suc, ◌-◌, ◌*◌, ◌^◌, String, Bool, true, false, ◌&&◌, Option, none, some, List, [], map,
  length, ltb, if◌then◌else◌,
}
use nodejs_movy_data.Events.Types.{
  LogLevel, run_started, run_finished, step_started, step_finished, log,
}
use nodejs_movy_data.Migrate.Schema
use nodejs_movy_data.Migrate.Schema.{
  TableMigrationResult, MigrationResult, DatabaseSchema, SchemaDiff, SchemaDiffSummary, StepDetail,
  Carried, step_detail, run_result,
}
use nodejs_movy_data.Migrate.Failure.{
  Failure, cancelled, failed, other, message_of, to_serialised_error, is_cancelled, explained,
}
use nodejs_movy_data.Migrate.Effects.{
  Result, ok, err, Event, Call, Session, Action, called, call, emitted, emit, throw, pure, ◌>>=◌,
  ◌>>◌,
}
use nodejs_movy_data.Migrate.Carry.{type_name}
use nodejs_movy_data.Migrate.Translate.{translate_diff}
use nodejs_movy_data.Migrate.Progress.{sum, migrate_data}
use nodejs_movy_data.Migrate.Ports.{
  migration_step_order, index_of, Config, Ports, summarise_diff, failed_tables,
  describe_failed_tables,
}

-- What is done if the action threw.
module _ {W P : Type 0} where
  abbrev pub retried :
      (Failure → Action W P Unit) → Result Unit × Session W P → Result Unit × Session W P
  retried again (ok a, s) = (ok a, s)
  retried again (err e, s) = again e s

module _ {W P : Type 0} (cfg : Config) (ports : Ports W P) where
  abbrev pub tell : Event P → Action W P Unit
  tell e = emit cfg.watched e

  abbrev pub finish_step :
      {A : Type 0}
      → String
      → ℕ
      → (A → Option StepDetail)
      → Result A × Session W P
      → Result A × Session W P
  finish_step step_id started_at detail (ok a, s) = (
    ok a,
    emitted cfg.watched
        (step_finished step_id "ok" (ports.now s.outside - started_at)
          (elim (detail a) [ none ↦ none | some d ↦ some (step_detail d) ]) none)
        s,
  )
  finish_step step_id started_at detail (err e, s) = (
    err e,
    emitted cfg.watched
        (step_finished step_id "failed" (ports.now s.outside - started_at) none
          (some (to_serialised_error e)))
        s,
  )

  unfoldable pub step :
      {A : Type 0} → String → Action W P A → (A → Option StepDetail) → Action W P A
  step step_id action detail s =
      if cfg.watched && ports.aborted s.outside
      then (err (cancelled (append "Migration cancelled before step \"" (append step_id "\""))), s)
      else finish_step step_id (ports.now s.outside) detail (
          action
            (emitted cfg.watched (step_started step_id (index_of step_id migration_step_order)) s))

  abbrev pub no_detail : {A : Type 0} → A → Option StepDetail
  no_detail a = none

  -- `err instanceof Error ? err : new Error(String(err))`
  abbrev pub as_error : Failure → Failure
  as_error (other text) = failed "Error" text none
  as_error e = e

  abbrev pub max_connect_retries : ℕ
  max_connect_retries = 3

  abbrev pub connect_base_delay_ms : ℕ
  connect_base_delay_ms = 1000

  abbrev pub pause : Bool → ℕ → Session W P → Session W P
  pause waits delay s = if waits then record s { outside = ports.wait delay s.outside } else s

  -- `retryWithBackoff` on a connection, with `left` attempts to make, of which the next is number
  -- `attempt`.
  unfoldable pub retry_connect : ℕ → ℕ → Call W Unit → Failure → Action W P Unit
  retry_connect zero attempt connect last_error s = throw last_error s
  retry_connect (suc left) attempt connect last_error s =
      retried
        (λ e s'.
          retry_connect left (suc attempt) connect (as_error e) (
            pause (ltb attempt max_connect_retries) (connect_base_delay_ms * 2 ^ (attempt - 1)) s'))
        (called s (connect s.outside))

  unfoldable pub connect_or_explain : String → Call W Unit → Action W P Unit
  connect_or_explain role connect s =
      retried (λ e. throw (explained ports.js role e))
        (retry_connect max_connect_retries 1 connect (failed "Error" "Unknown error" none) s)

  unfoldable pub validate_connections : Action W P Unit
  validate_connections = do
    connect_or_explain "Source" ports.connect_source
    connect_or_explain "Admin" ports.connect_admin

  unfoldable pub create_database : Action W P Bool
  create_database = do
    created ← call (ports.ensure_database cfg.dest_database)
    connect_or_explain "Destination" ports.connect_dest
    pure created

  abbrev pub created_detail : Bool → Option StepDetail
  created_detail created = some (Schema.create_database cfg.dest_database created)

  -- `CompareSchemasUseCase.execute`: the source schema and the difference.
  unfoldable pub compare_schemas : Action W P (DatabaseSchema × SchemaDiff)
  compare_schemas = do
    source_schema ← call ports.inspect_source
    target_schema ← call ports.inspect_dest
    diff ← call (λ w. (ports.diff source_schema target_schema, w))
    pure (source_schema, diff)

  abbrev pub compared_detail : DatabaseSchema × SchemaDiff → Option StepDetail
  compared_detail (source_schema, diff) = some (
      Schema.inspect_and_diff (length source_schema.tables) (length source_schema.sequences)
        (length source_schema.enums) (summarise_diff diff))

  -- `SyncSchemaUseCase.execute`
  unfoldable pub sync_schema : SchemaDiff → Action W P Unit
  sync_schema diff =
      call
        (ports.apply (translate_diff ports.js ports.translator cfg.source_type cfg.dest_type diff))

  abbrev pub triggers_detail : List String → Unit {0} → Option StepDetail
  triggers_detail names a = some (Schema.triggers (length names))

  -- `triggersDisabled = true; disabledTables = tableNames`
  abbrev pub note_disabled : List String → Action W P Unit
  note_disabled names s = (ok tt, record s { triggers_disabled = true; disabled_tables = names })

  unfoldable pub copy_data : DatabaseSchema → Action W P MigrationResult
  copy_data schema = do
    estimates ← call ports.row_estimates
    migrate_data cfg.watched ports.percent ports.before_text ports.migrate cfg.source_type
        cfg.dest_type schema.tables estimates

  abbrev pub copied_detail : MigrationResult → Option StepDetail
  copied_detail r = some (
      Schema.migrate_data (length r.tables) (sum (map (λ t. t.rows_copied) r.tables))
        (length (failed_tables r)))

  abbrev pub note_enabled : Action W P Unit
  note_enabled s = (ok tt, record s { triggers_disabled = false })

  unfoldable pub enable_triggers : List String → Action W P Unit
  enable_triggers names = call (ports.enable_triggers names) >> note_enabled

  -- Steps 4 to 8.
  unfoldable pub load_steps : DatabaseSchema → SchemaDiff → Action W P MigrationResult
  load_steps schema diff = do
    let names = map (λ t. t.name) schema.tables
    note_disabled names
    step "disable_triggers" (call (ports.disable_triggers names)) (triggers_detail names)
    result ← step "migrate_data" (copy_data schema) copied_detail
    step "enable_triggers" (enable_triggers names) (triggers_detail names)
    step "create_indexes" (call (ports.create_indexes diff))
        (λ a. some (Schema.create_indexes (length diff.indexes_to_create)))
    step "reset_sequences" (call (ports.reset_sequences schema))
        (λ a. some (Schema.reset_sequences (length schema.sequences)))
    pure result

  unfoldable pub run_steps : Action W P MigrationResult
  run_steps = do
    step "validate_connections" validate_connections no_detail
    step "create_database" create_database created_detail
    compared ← step "inspect_and_diff" compare_schemas compared_detail
    step "sync_schema" (sync_schema compared.1) no_detail
    load_steps compared.0 compared.1

  abbrev pub finished_ok : ℕ → MigrationResult → Action W P MigrationResult
  finished_ok started_at result s = (
    ok result,
    emitted cfg.watched
        (run_finished (if result.success then "succeeded" else "failed")
          (ports.now s.outside - started_at) (some (run_result result))
          (if result.success then none else some (describe_failed_tables ports.js result)))
        s,
  )

  abbrev pub could_not : Failure → String
  could_not e =
      append "Could not re-enable destination triggers after cancellation: " (message_of e)

  abbrev pub warned : Result Unit × Session W P → Session W P
  warned (ok a, s) = s
  warned (err e, s) = emitted cfg.watched (log LogLevel.warn (could_not e) none) s

  -- The compensation of a cancelled run.
  unfoldable pub compensate : Failure → Session W P → Session W P
  compensate e s =
      if is_cancelled e && s.triggers_disabled
      then warned (called s (ports.enable_triggers s.disabled_tables s.outside))
      else s

  abbrev pub finished_with : ℕ → Failure → Session W P → Result MigrationResult × Session W P
  finished_with started_at e s = (
    err e,
    emitted cfg.watched
        (run_finished (if is_cancelled e then "cancelled" else "failed")
          (ports.now s.outside - started_at) none (some (to_serialised_error e)))
        s,
  )

  -- The `try` and the `catch`.
  abbrev pub settled :
      ℕ → Result MigrationResult × Session W P → Result MigrationResult × Session W P
  settled started_at (ok result, s) = finished_ok started_at result s
  settled started_at (err e, s) = finished_with started_at e (compensate e s)

  -- The `finally`: the three connections are ended, whatever that comes to.
  abbrev pub close_connections : {A : Type 0} → Result A × Session W P → Result A × Session W P
  close_connections (r, s) = (r, record s { outside = ports.end_connections s.outside })

  abbrev pub started : Event P
  started =
      run_started "full"
        (record { engine = type_name cfg.source_type; database = cfg.source_database })
        (record { engine = type_name cfg.dest_type; database = cfg.dest_database })

  abbrev pub fresh : W → Session W P
  fresh w = record {
    outside = w;
    events = [];
    triggers_disabled = false;
    disabled_tables = [];
    late = [];
  }

  abbrev pub begin : W → Session W P
  begin w = emitted cfg.watched started (fresh w)

  unfoldable pub run : W → Result MigrationResult × Session W P
  run w = close_connections (settled (ports.now w) (run_steps (begin w)))
