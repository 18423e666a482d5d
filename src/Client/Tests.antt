-- ===== src/Client/Tests.antt =====
-- The reducer's theorems at a small run, and runs of the reducer.
use nodejs_movy_data.Prelude.{
  ◌&&◌, not, ℕ, map, ◌⊎◌, false, ◌≡◌, ◌≤◌, refl, inl, true, String, none, some, List, [], ◌∷◌, ◌++◌,
  arith, min, max, length, lookup, insert, str_eq,
}
use nodejs_movy_data.Client.State.{
  Platform, WireRun, WireRunStatus, Payload, WireEvent, TableView, TableStatus, RunState,
}
use nodejs_movy_data.Client.Fold.{
  apply_events, start_fold, finish_fold, fold_events, fold_event, apply_payload, set_table,
  progress_table, sort, sort_from, insert_by, load, max_log_lines, apply_run_row, run_is_over,
}
use nodejs_movy_data.Client.Replay.{apply_events_twice, logs_bounded}
use nodejs_movy_data.Client.Rows.{Advances, apply_run_row_forward}
use nodejs_movy_data.Client.Keyed.{IsDistinct}
use nodejs_movy_data.Client.Tables.{table_key, Shown, StaysOver, over-StaysOver}
use nodejs_movy_data.Client.Batches.{SameView, apply_events-append}

-- Whole percentages, and an order in which only "orders" comes before other names.
instance whole : Platform ℕ
whole = record {
  nought = 0;
  hundred = 100;
  larger = max;
  smaller = min;
  share = λ done total. done;
  locale_lt = λ a b. str_eq a "orders" && not (str_eq b "orders");
}

abbrev copied : TableView ℕ
copied = record {
  table_name = "users";
  status = TableStatus.done;
  rows_done = 10;
  rows_total = 10;
  pct = 100;
  duration_ms = some 5;
  error = none;
}

abbrev header : String → WireRun ℕ
header status = record {
  id = "run-1";
  status = status;
  mode = "full";
  simulated = false;
  runner_class = "default";
  source = record { engine = "postgres"; database = "a" };
  target = record { engine = "postgres"; database = "b" };
  progress = record { rows_done = 0; rows_total = 0; tables_done = 0; tables_total = 0; pct = 0 };
  last_seq = 0;
  error = none;
  created_at = "t0";
  started_at = none;
  finished_at = none;
  duration_ms = none;
  definition_id = none;
  definition_name = none;
}

abbrev shown : RunState ℕ String
shown = record {
  run = some (header "running");
  steps = [];
  tables = copied ∷ [];
  logs = [];
  last_seq = 3;
  logs_withheld = false;
}

abbrev event : ℕ → Payload ℕ String → WireEvent ℕ String
event n p = record { seq = n; at = "t1"; level = none; payload = p }

-- A progress sample that arrives after its table has finished, and a log line.
abbrev late_sample : List (WireEvent ℕ String)
late_sample =
    event 4 (Payload.table_progress "users" (some 7) (some 10) (some 70))
    ∷ event 5 (Payload.log (some "copying") none)
    ∷ event 5 (Payload.log (some "copying") none)
    ∷ []

abbrev row : String → WireRunStatus
row status = record {
  id = "run-1";
  status = status;
  error = none;
  started_at = none;
  finished_at = some "t9";
}

abbrev finish : List (WireEvent ℕ String)
finish = event 6 (Payload.run_finished "succeeded" (some 9) none) ∷ []

abbrev table_statuses : RunState ℕ String → List TableStatus
table_statuses s = map (λ (t : TableView ℕ). t.status) s.tables

late_sample_kept : table_statuses (apply_events shown late_sample) ≡ TableStatus.done ∷ []
unfolding apply_events start_fold finish_fold fold_events fold_event apply_payload set_table
    progress_table sort sort_from insert_by load insert lookup
late_sample_kept = refl

apply_events_twice_example :
    (apply_events (apply_events shown late_sample) late_sample ≡ apply_events shown late_sample)
    × (3 ≤ (apply_events shown late_sample).last_seq)
apply_events_twice_example = apply_events_twice shown late_sample

logs_bounded_example : length (apply_events shown late_sample).logs ≤ max_log_lines
logs_bounded_example = logs_bounded shown late_sample (omega arith)

apply_run_row_forward_example :
    ((apply_run_row shown (row "succeeded") ≡ shown)
      ⊎ Advances shown (apply_run_row shown (row "succeeded")))
    × (run_is_over shown ≡ true → apply_run_row shown (row "succeeded") ≡ shown)
apply_run_row_forward_example = apply_run_row_forward shown (row "succeeded")

over-StaysOver_example :
    IsDistinct table_key (apply_events shown late_sample).tables
    × ((t : TableView ℕ) × Shown t (apply_events shown late_sample) × StaysOver copied t)
over-StaysOver_example = over-StaysOver shown late_sample copied (tt, tt) (inl refl) refl

apply_events-append_example :
    SameView
      (apply_events (apply_events shown late_sample) finish)
      (apply_events shown (late_sample ++ finish))
apply_events-append_example = apply_events-append shown late_sample finish (tt, tt)
