-- ===== src/Ingest/Tests.antt =====
-- The ingestion's theorems at a small batch, and runs of it.
use nodejs_movy_data.Prelude.{
  ℕ, ◌≡◌, ◌≤◌, refl, true, false, String, none, some, List, [], ◌∷◌, arith, min, max, All, lookup,
}
use nodejs_movy_data.Events.Types.{EventInput, MigrationEvent}
use nodejs_movy_data.Client.State.{Platform, TableStatus}
use nodejs_movy_data.Ingest.Project.{
  TablePatch, Projected, absent, project_events, project_loop, project_event, project_body,
  empty_projected, empty_patch,
}
use nodejs_movy_data.Ingest.Store.{
  TableRow, RunStore, apply_projection, write_projection, store_run, stored_status,
}
use nodejs_movy_data.Ingest.Again.{apply_projection_twice}
use nodejs_movy_data.Ingest.Outcome.{cursor_climbs, outcome_stored}
use nodejs_movy_data.Ingest.Finished.{
  StaysOver, StaysFinished, apply_projection-StaysOver, project_loop-Finished,
}

instance whole : Platform ℕ
whole = record {
  nought = 0;
  hundred = 100;
  larger = max;
  smaller = min;
  share = λ done total. done;
  locale_lt = λ a b. false;
}

max_self : (a : ℕ) → max a a ≡ a
max_self a = omega arith

max_again : (a b : ℕ) → max (max a b) b ≡ max a b
max_again a b = omega arith

abbrev event : ℕ → EventInput ℕ String → MigrationEvent ℕ String
event n b = record { run_id = "run-1"; seq = n; at = "t1"; body = b }

-- The sample that the throttle held comes after the end of its table.
abbrev batch : List (MigrationEvent ℕ String)
batch =
    event 7 (EventInput.table_finished "users" 100 7 true none)
    ∷ event 8 (EventInput.table_progress "users" 90 100 90)
    ∷ event 9 (EventInput.run_finished "succeeded" 70 none none)
    ∷ event 10 (EventInput.overall_progress 90 100 90 1 1)
    ∷ []

abbrev started : List (MigrationEvent ℕ String)
started =
    event 7 (EventInput.table_finished "users" 100 7 true none)
    ∷ event 8 (EventInput.table_progress "users" 90 100 90)
    ∷ []

abbrev ended : List (MigrationEvent ℕ String)
ended = event 10 (EventInput.overall_progress 90 100 90 1 1) ∷ []

abbrev users : TableRow ℕ
users = record {
  status = TableStatus.done;
  rows_done = 100;
  rows_total = 100;
  pct = 100;
  duration_ms = some 7;
  error = none;
  finished_at = some "t0";
}

abbrev stored : RunStore ℕ String
stored = record {
  run = record {
    status = "running";
    last_seq = 6;
    rows_done = 0;
    rows_total = 0;
    tables_done = 0;
    tables_total = 1;
    started_at = some "t0";
    finished_at = none;
    duration_ms = none;
    error_name = none;
    error_message = none;
    updated_at = 0;
  };
  events = [];
  steps = [];
  tables = ("users", users) ∷ [];
}

apply_projection_twice_example :
    apply_projection 5 (project_events batch) (apply_projection 5 (project_events batch) stored)
    ≡ apply_projection 5 (project_events batch) stored
unfolding whole
apply_projection_twice_example =
    apply_projection_twice ⦃o = whole⦄ max_self max_again 5 batch stored

cursor_climbs_example :
    (6 ≤ (apply_projection 5 (project_events batch) stored).run.last_seq)
    × All (λ e. e.seq ≤ (apply_projection 5 (project_events batch) stored).run.last_seq) batch
cursor_climbs_example = cursor_climbs 5 batch stored

outcome_stored_example : (apply_projection 5 (project_events batch) stored).run.status ≡ "succeeded"
outcome_stored_example =
    outcome_stored 5 started ended "run-1" "t1" "succeeded" 9 70 none none stored refl (refl, tt)

apply_projection-StaysOver_example :
    (row' : TableRow ℕ) × (lookup "users" (apply_projection 5 (project_events batch) stored).tables
      ≡ some row')
    × StaysOver users row'
unfolding lookup
apply_projection-StaysOver_example =
    apply_projection-StaysOver 5 (project_events batch) stored "users" users refl refl

abbrev users_patch : TablePatch ℕ
users_patch = record {
  table_name = "users";
  status = TableStatus.failed;
  rows_done = 40;
  rows_total = 100;
  pct = 40;
  duration_ms = absent;
  error = absent;
  finished_at = absent;
}

abbrev half : Projected ℕ String
half = record { rows = []; run = empty_patch; steps = []; tables = ("users", users_patch) ∷ [] }

project_loop-Finished_example :
    (t' : TablePatch ℕ) × (lookup "users" (project_loop ended half).tables ≡ some t')
    × StaysFinished users_patch t'
unfolding lookup
project_loop-Finished_example = project_loop-Finished ended half "users" users_patch refl refl

-- A start that is stored late reopens a run that has settled.
abbrev settled : RunStore ℕ String
settled = record stored { run = record (stored.run) { status = "failed" } }

abbrev late_start : List (MigrationEvent ℕ String)
late_start =
    event 1 (
      EventInput.run_started "full" (record { engine = "postgres"; database = "a" })
        (record { engine = "postgres"; database = "b" }))
    ∷ []

late_start_reopens : (apply_projection 5 (project_events late_start) settled).run.status ≡ "running"
unfolding apply_projection write_projection store_run stored_status project_events project_loop
    project_event project_body empty_projected
late_start_reopens = refl
