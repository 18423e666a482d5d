-- ===== src/Ingest/Store.antt =====
-- `applyProjection` of apps/runner/src/agent/ingestion.ts, on the rows of one run: its columns in `runs`
-- that the projection writes, and its rows in `run_events`, `run_steps` and `run_table_progress`.
use nodejs_movy_data.Prelude.{
  ℕ, Bool, true, false, not, ◌&&◌, String, Option, none, some, List, [], ◌∷◌, ◌++◌, max, Dict,
  lookup, insert, str_eq, ◌==◌, any, if◌then◌else◌, or_else,
}
use nodejs_movy_data.Client.State.{Platform, TableStatus}
use nodejs_movy_data.Client.Fold.{is_over}
use nodejs_movy_data.Ingest.Project.{
  Slot, absent, given, slot_or, RunPatch, StepPatch, TablePatch, EventRow, Projection,
}

-- What a driver makes of a field that is absent or `undefined`: NULL.
abbrev pub nullable : {A : Type 0} → Slot A → Option A
nullable (given a) = some a
nullable absent = none

abbrev pub flat : {A : Type 0} → Slot (Option A) → Option A
flat (given a) = a
flat absent = none

pub record RunColumns : Type 0 where
  pub status : String
  pub last_seq : ℕ
  pub rows_done : ℕ
  pub rows_total : ℕ
  pub tables_done : ℕ
  pub tables_total : ℕ
  pub started_at : Option String
  pub finished_at : Option String
  pub duration_ms : Option ℕ
  pub error_name : Option String
  pub error_message : Option String
  pub updated_at : ℕ

pub record StepRow (D : Type 0) : Type 0 where
  pub ordinal : ℕ
  pub status : String
  pub detail : Option D
  pub error_name : Option String
  pub error_message : Option String
  pub duration_ms : Option ℕ
  pub started_at : Option String
  pub finished_at : Option String

pub record TableRow (P : Type 0) : Type 0 where
  pub status : TableStatus
  pub rows_done : ℕ
  pub rows_total : ℕ
  pub pct : P
  pub duration_ms : Option ℕ
  pub error : Option String
  pub finished_at : Option String

pub record RunStore (P D : Type 0) : Type 0 where
  pub run : RunColumns
  pub events : List (EventRow P D)
  pub steps : Dict (StepRow D)
  pub tables : Dict (TableRow P)

-- INSERT … ON CONFLICT DO NOTHING, by the primary key (run_id, seq)
unfoldable pub store_events :
    {P D : Type 0} → List (EventRow P D) → List (EventRow P D) → List (EventRow P D)
store_events [] rows = rows
store_events (e ∷ es) rows =
    store_events es (if any (λ r. r.seq == e.seq) rows then rows else rows ++ e ∷ [])

unfoldable pub put_step : {D : Type 0} → StepPatch D → Option (StepRow D) → StepRow D
put_step p none = record {
  ordinal = p.ordinal;
  status = p.status;
  detail = flat p.detail;
  error_name = flat p.error_name;
  error_message = flat p.error_message;
  duration_ms = nullable p.duration_ms;
  started_at = nullable p.started_at;
  finished_at = nullable p.finished_at;
}
put_step p (some row) = record row {
  status = p.status;
  detail = or_else (flat p.detail) row.detail;
  error_name = flat p.error_name;
  error_message = flat p.error_message;
  duration_ms = or_else (nullable p.duration_ms) row.duration_ms;
  started_at = or_else row.started_at (nullable p.started_at);
  finished_at = or_else (nullable p.finished_at) row.finished_at;
}

unfoldable pub store_steps : {D : Type 0} → List (StepPatch D) → Dict (StepRow D) → Dict (StepRow D)
store_steps [] m = m
store_steps (p ∷ ps) m = store_steps ps (insert p.step_id (put_step p (lookup p.step_id m)) m)

module _ {P : Type 0} ⦃o : Platform P⦄ where
  unfoldable pub put_table : TablePatch P → Option (TableRow P) → TableRow P
  put_table p none = record {
    status = p.status;
    rows_done = p.rows_done;
    rows_total = p.rows_total;
    pct = p.pct;
    duration_ms = nullable p.duration_ms;
    error = flat p.error;
    finished_at = nullable p.finished_at;
  }
  put_table p (some row) = record {
    status = if is_over row.status && not (is_over p.status) then row.status else p.status;
    rows_done = max row.rows_done p.rows_done;
    rows_total = max row.rows_total p.rows_total;
    pct = o.larger row.pct p.pct;
    duration_ms = or_else (nullable p.duration_ms) row.duration_ms;
    error = or_else (flat p.error) row.error;
    finished_at = or_else (nullable p.finished_at) row.finished_at;
  }

  unfoldable pub store_tables : List (TablePatch P) → Dict (TableRow P) → Dict (TableRow P)
  store_tables [] m = m
  store_tables (p ∷ ps) m =
      store_tables ps (insert p.table_name (put_table p (lookup p.table_name m)) m)

-- `status` and `lastSeq` of the final UPDATE.
unfoldable pub stored_status : String → Slot String → String
stored_status old absent = old
stored_status old (given s) =
    if str_eq s "running" then (if str_eq old "cancelling" then old else "running") else s

unfoldable pub stored_seq : ℕ → Slot ℕ → ℕ
stored_seq old absent = old
stored_seq old (given n) = max old n

abbrev pub some_or : {A : Type 0} → Slot A → Option A → Option A
some_or (given a) old = some a
some_or absent old = old

unfoldable pub store_run : ℕ → RunPatch → RunColumns → RunColumns
unfolding stored_status stored_seq
store_run now p row = record {
  status = stored_status row.status p.status;
  last_seq = stored_seq row.last_seq p.last_seq;
  rows_done = slot_or p.rows_done row.rows_done;
  rows_total = slot_or p.rows_total row.rows_total;
  tables_done = slot_or p.tables_done row.tables_done;
  tables_total = slot_or p.tables_total row.tables_total;
  started_at = some_or p.started_at row.started_at;
  finished_at = some_or p.finished_at row.finished_at;
  duration_ms = some_or p.duration_ms row.duration_ms;
  error_name = slot_or p.error_name row.error_name;
  error_message = slot_or p.error_message row.error_message;
  updated_at = now;
}

abbrev is_absent : {A : Type 0} → Slot A → Bool
is_absent absent = true
is_absent (given a) = false

abbrev pub is_empty_patch : RunPatch → Bool
is_empty_patch p =
    is_absent p.status
    && is_absent p.last_seq
    && is_absent p.rows_done
    && is_absent p.rows_total
    && is_absent p.tables_done
    && is_absent p.tables_total
    && is_absent p.started_at
    && is_absent p.finished_at
    && is_absent p.duration_ms
    && is_absent p.error_name
    && is_absent p.error_message

module _ {P D : Type 0} ⦃o : Platform P⦄ where
  unfoldable pub write_projection : ℕ → Projection P D → RunStore P D → RunStore P D
  write_projection now p s = record {
    run = store_run now p.run s.run;
    events = store_events p.events s.events;
    steps = store_steps p.steps s.steps;
    tables = store_tables p.tables s.tables;
  }

  abbrev pub no_events : List (EventRow P D) → Bool
  no_events [] = true
  no_events (e ∷ es) = false

  unfoldable pub apply_projection : ℕ → Projection P D → RunStore P D → RunStore P D
  apply_projection now p s =
      if no_events p.events && is_empty_patch p.run then s else write_projection now p s
