-- ===== src/Client/Fold.antt =====
-- The functions of run-reducer.ts.
use nodejs_movy_data.Prelude.{
  ℕ, suc, ◌-◌, Bool, true, false, not, ◌||◌, String, Option, none, some, List, [], ◌∷◌, ◌++◌, map,
  max, Dict, lookup, insert, values, length, drop, str_eq, ltb, leb, if◌then◌else◌, get_or, or_else,
  is_some,
}
use nodejs_movy_data.Client.State.{
  Platform, ErrorView, WireRun, Progress, WireRunStatus, WireStep, WireTable, Payload, WireEvent,
  StepStatus, TableStatus, StepView, TableView, LogLine, RunState, Cohort, full, redacted,
  ServerFrame,
}

abbrev pub run_step_order : List String
run_step_order =
    "validate_connections" ∷ "create_database" ∷ "inspect_and_diff" ∷ "sync_schema"
    ∷ "disable_triggers" ∷ "migrate_data" ∷ "enable_triggers" ∷ "create_indexes" ∷ "reset_sequences"
    ∷ []

-- RUN_STEP_LABELS
abbrev pub step_labels : Dict String
step_labels =
    ("validate_connections", "Validate connections")
    ∷ ("create_database", "Create database")
    ∷ ("inspect_and_diff", "Inspect and diff schema")
    ∷ ("sync_schema", "Apply schema")
    ∷ ("disable_triggers", "Disable constraints")
    ∷ ("migrate_data", "Copy data")
    ∷ ("enable_triggers", "Re-enable constraints")
    ∷ ("create_indexes", "Create indexes")
    ∷ ("reset_sequences", "Reset sequences")
    ∷ []

unfoldable pub step_label : String → String
unfolding lookup
step_label id = get_or (lookup id step_labels) ""

unfoldable pub index_from : ℕ → String → List String → Option ℕ
index_from n id [] = none
index_from n id (j ∷ js) = if str_eq j id then some n else index_from (suc n) id js

-- `STEP_INDEX.get(id) ?? 0`
unfoldable pub step_index : String → ℕ
unfolding index_from
step_index id = get_or (index_from 0 id run_step_order) 0

abbrev pub max_log_lines : ℕ
max_log_lines = 2000

-- `Array.prototype.sort`, which is stable, by a test for "comes before".
module _ {A : Type 0} (lt : A → A → Bool) where
  unfoldable pub insert_by : A → List A → List A
  insert_by x [] = x ∷ []
  insert_by x (y ∷ ys) = if lt x y then x ∷ y ∷ ys else y ∷ insert_by x ys

  unfoldable pub sort_from : List A → List A → List A
  sort_from acc [] = acc
  sort_from acc (x ∷ xs) = sort_from (insert_by x acc) xs

  unfoldable pub sort : List A → List A
  sort xs = sort_from [] xs

-- `new Map(xs.map((x) => [key(x), x]))`
unfoldable pub load : {A : Type 0} → (A → String) → Dict A → List A → Dict A
load key m [] = m
load key m (x ∷ xs) = load key (insert (key x) x m) xs

unfoldable pub normalise_step_status : String → StepStatus
normalise_step_status s =
    if str_eq s "running"
    then StepStatus.running
    else if str_eq s "ok"
    then StepStatus.ok
    else if str_eq s "failed"
    then StepStatus.failed
    else if str_eq s "skipped"
    then StepStatus.skipped
    else StepStatus.pending

unfoldable pub normalise_table_status : String → TableStatus
normalise_table_status s =
    if str_eq s "running"
    then TableStatus.running
    else if str_eq s "done"
    then TableStatus.done
    else if str_eq s "failed"
    then TableStatus.failed
    else TableStatus.pending

abbrev pub is_over : TableStatus → Bool
is_over TableStatus.done = true
is_over TableStatus.failed = true
is_over _ = false

-- STATUS_RANK, shifted by one so that 0 stands for `?? -1`.
unfoldable pub status_rank : String → ℕ
status_rank s =
    if str_eq s "queued"
    then 1
    else if str_eq s "running"
    then 2
    else if str_eq s "cancelling"
    then 3
    else if str_eq s "succeeded" || (str_eq s "failed" || str_eq s "cancelled")
    then 4
    else 0

unfoldable pub is_terminal : String → Bool
is_terminal s = str_eq s "succeeded" || (str_eq s "failed" || str_eq s "cancelled")

abbrev pub is_redacted : Cohort → Bool
is_redacted full = false
is_redacted redacted = true

abbrev non_empty : Option String → Option String
non_empty none = none
non_empty (some s) = if str_eq s "" then none else some s

unfoldable pub cap_logs : List LogLine → List LogLine
cap_logs lines =
    if leb (length lines) max_log_lines then lines else drop (length lines - max_log_lines) lines

-- The variables of the loop in `applyEvents`.
pub record Fold (P D : Type 0) : Type 0 where
  pub run : Option (WireRun P)
  pub last_seq : ℕ
  pub steps : Dict (StepView D)
  pub tables : Dict (TableView P)
  pub logs : List LogLine
  pub touched_steps : Bool
  pub touched_tables : Bool

module _ {P : Type 0} ⦃o : Platform P⦄ where
  unfoldable pub percent : ℕ → ℕ → P
  percent done total = if leb total 0 then o.nought else o.smaller o.hundred (o.share done total)

  unfoldable pub new_table : String → ℕ → TableView P
  new_table name total = record {
    table_name = name;
    status = TableStatus.pending;
    rows_done = 0;
    rows_total = total;
    pct = o.nought;
    duration_ms = none;
    error = none;
  }

  unfoldable pub set_table :
      String → (TableView P → TableView P) → Dict (TableView P) → Dict (TableView P)
  set_table name update m = insert name (update (get_or (lookup name m) (new_table name 0))) m

  unfoldable pub progress_table : Option ℕ → Option ℕ → Option P → TableView P → TableView P
  progress_table rows_done rows_total pct t = record t {
    status = if is_over t.status then t.status else TableStatus.running;
    rows_done = max t.rows_done (get_or rows_done 0);
    rows_total = max t.rows_total (get_or rows_total 0);
    pct = o.larger t.pct (get_or pct o.nought);
  }

  unfoldable pub finish_table :
      Option ℕ → Bool → Option ℕ → Option String → TableView P → TableView P
  finish_table rows_copied success duration_ms error t = record t {
    status = if success then TableStatus.done else TableStatus.failed;
    rows_done = get_or rows_copied t.rows_done;
    rows_total = max t.rows_total (get_or rows_copied 0);
    pct = if success then o.hundred else t.pct;
    duration_ms = some (get_or duration_ms 0);
    error = error;
  }

  -- The loop of `plan_ready`: tables that are there are left alone.
  unfoldable pub seed_tables : Dict ℕ → List String → Dict (TableView P) → Dict (TableView P)
  seed_tables estimates [] m = m
  seed_tables estimates (name ∷ names) m = seed_tables estimates names (
      if is_some (lookup name m)
      then m
      else insert name (new_table name (get_or (lookup name estimates) 0)) m)

  overall : Option ℕ → Option ℕ → Option ℕ → Option ℕ → Progress P
  unfolding percent
  overall rows_done rows_total tables_done tables_total = record {
    rows_done = get_or rows_done 0;
    rows_total = get_or rows_total 0;
    tables_done = get_or tables_done 0;
    tables_total = get_or tables_total 0;
    pct = percent (get_or rows_done 0) (get_or rows_total 0);
  }

  abbrev pub by_table_name : TableView P → TableView P → Bool
  by_table_name a b = o.locale_lt a.table_name b.table_name

  unfoldable pub to_table_view : WireTable P → TableView P
  to_table_view row = record {
    table_name = row.table_name;
    status = normalise_table_status row.status;
    rows_done = row.rows_done;
    rows_total = row.rows_total;
    pct = row.pct;
    duration_ms = row.duration_ms;
    error = row.error;
  }

module _ {D : Type 0} where
  unfoldable pub set_step :
      String → (StepView D → StepView D) → Dict (StepView D) → Dict (StepView D)
  set_step id update m = elim (lookup id m) [ none ↦ m | some v ↦ insert id (update v) m ]

  unfoldable pub start_step : StepView D → StepView D
  start_step s = record s { status = StepStatus.running }

  unfoldable pub finish_step :
      String → Option ℕ → Option D → Option ErrorView → StepView D → StepView D
  finish_step status duration_ms detail error s = record s {
    status = normalise_step_status status;
    duration_ms = some (get_or duration_ms 0);
    detail = or_else detail s.detail;
    error = error;
  }

  abbrev pub by_step_order : StepView D → StepView D → Bool
  by_step_order a b = ltb (step_index a.step_id) (step_index b.step_id)

  abbrev step_view : Dict (WireStep D) → String → StepView D
  step_view known id = elim (lookup id known) [
    | none ↦ record {
      step_id = id;
      label = step_label id;
      status = StepStatus.pending;
      duration_ms = none;
      error = none;
      detail = none;
    }
    | some row ↦ record {
      step_id = id;
      label = step_label id;
      status = normalise_step_status row.status;
      duration_ms = row.duration_ms;
      error = row.error;
      detail = row.detail;
    }
  ]

  unfoldable pub build_steps : List (WireStep D) → List (StepView D)
  build_steps rows = map (step_view (load (λ r. r.step_id) [] rows)) run_step_order

module _ {P D : Type 0} ⦃o : Platform P⦄ where
  abbrev with_run : (WireRun P → WireRun P) → Fold P D → Fold P D
  with_run g f = record f { run = elim f.run [ none ↦ none | some r ↦ some (g r) ] }

  -- The `switch` of `applyEvents`.
  unfoldable pub apply_payload : WireEvent P D → Payload P D → Fold P D → Fold P D
  unfolding overall
  apply_payload e Payload.run_started f =
      with_run (λ r. record r { status = "running"; started_at = some e.at }) f
  apply_payload e (Payload.run_finished status duration_ms error) f =
      with_run
        (λ r. record r {
          status = status;
          finished_at = some e.at;
          duration_ms = some (get_or duration_ms 0);
          error = error;
        })
        f
  apply_payload e (Payload.step_started id) f = record f {
    steps = set_step id start_step f.steps;
    touched_steps = true;
  }
  apply_payload e (Payload.step_finished id status duration_ms detail error) f = record f {
    steps = set_step id (finish_step status duration_ms detail error) f.steps;
    touched_steps = true;
  }
  apply_payload e (Payload.plan_ready load_order estimates) f = record f {
    tables = seed_tables estimates load_order f.tables;
    touched_tables = true;
  }
  apply_payload e (Payload.table_progress name rows_done rows_total pct) f = record f {
    tables = set_table name (progress_table rows_done rows_total pct) f.tables;
    touched_tables = true;
  }
  apply_payload e (Payload.table_finished name rows_copied success duration_ms error) f = record f {
    tables = set_table name (finish_table rows_copied success duration_ms error) f.tables;
    touched_tables = true;
  }
  apply_payload e (Payload.overall_progress rows_done rows_total tables_done tables_total) f =
      with_run (λ r. record r { progress = overall rows_done rows_total tables_done tables_total })
        f
  apply_payload e (Payload.log message step_id) f = record f {
    logs =
        f.logs
        ++ record {
          seq = e.seq;
          at = e.at;
          level = get_or e.level "info";
          message = get_or message "";
          step_id = non_empty step_id;
        }
          ∷ [];
  }
  apply_payload e Payload.unknown f = f

  unfoldable pub fold_event : Fold P D → WireEvent P D → Fold P D
  fold_event f e =
      if leb e.seq f.last_seq then f else apply_payload e e.payload (record f { last_seq = e.seq })

  unfoldable pub fold_events : Fold P D → List (WireEvent P D) → Fold P D
  fold_events f [] = f
  fold_events f (e ∷ es) = fold_events (fold_event f e) es

  unfoldable pub start_fold : RunState P D → Fold P D
  start_fold s = record {
    run = s.run;
    last_seq = s.last_seq;
    steps = load (λ v. v.step_id) [] s.steps;
    tables = load (λ v. v.table_name) [] s.tables;
    logs = [];
    touched_steps = false;
    touched_tables = false;
  }

  unfoldable pub finish_fold : RunState P D → Fold P D → RunState P D
  finish_fold s f = record {
    run = f.run;
    steps = if f.touched_steps then sort by_step_order (values f.steps) else s.steps;
    tables = if f.touched_tables then sort by_table_name (values f.tables) else s.tables;
    logs = if ltb 0 (length f.logs) then cap_logs (s.logs ++ f.logs) else s.logs;
    last_seq = f.last_seq;
    logs_withheld = s.logs_withheld;
  }

  unfoldable pub apply_events : RunState P D → List (WireEvent P D) → RunState P D
  apply_events s [] = s
  apply_events s (e ∷ es) = finish_fold s (fold_events (start_fold s) (e ∷ es))

  unfoldable pub empty_run_state : RunState P D
  empty_run_state = record {
    run = none;
    steps = [];
    tables = [];
    logs = [];
    last_seq = 0;
    logs_withheld = false;
  }

  unfoldable pub apply_snapshot :
      WireRun P
      → List (WireStep D)
      → List (WireTable P)
      → List (WireEvent P D)
      → Cohort
      → RunState P D
  apply_snapshot run steps tables events cohort =
      apply_events
        (record {
          run = some run;
          steps = build_steps steps;
          tables = sort by_table_name (map to_table_view tables);
          logs = [];
          last_seq = 0;
          logs_withheld = is_redacted cohort;
        })
        events

  unfoldable pub advance_run : WireRunStatus → WireRun P → RunState P D → RunState P D
  advance_run row current s =
      if not (str_eq current.id row.id)
      then s
      else if leb (status_rank row.status) (status_rank current.status)
      then s
      else record s {
        run = some (record current {
          status = row.status;
          error = or_else row.error current.error;
          finished_at = or_else row.finished_at current.finished_at;
          started_at = or_else current.started_at row.started_at;
        });
      }

  unfoldable pub apply_run_row : RunState P D → WireRunStatus → RunState P D
  unfolding advance_run
  apply_run_row s row = elim s.run [ none ↦ s | some current ↦ advance_run row current s ]

  unfoldable pub apply_frame : RunState P D → ServerFrame P D → RunState P D
  apply_frame s ServerFrame.hello = s
  apply_frame s (ServerFrame.snapshot run steps tables events last_seq cohort) =
      apply_snapshot run steps tables events cohort
  apply_frame s (ServerFrame.events run_id events) = apply_events s events
  apply_frame s (ServerFrame.run_status run) = apply_run_row s run
  apply_frame s (ServerFrame.cohort_changed cohort) = record s {
    logs_withheld = is_redacted cohort;
  }
  apply_frame s (ServerFrame.revoked reason) = s
  apply_frame s (ServerFrame.error message) = s

  unfoldable pub run_is_over : RunState P D → Bool
  run_is_over s = elim s.run [ none ↦ false | some r ↦ is_terminal r.status ]
