-- ===== src/Migrate/Progress.antt =====
-- `MigrateDataUseCase.execute` of packages/core/src/application/use-cases/migrate-data.use-case.ts: the
-- plan, the events of the copy's progress, and the tables that no event has finished. What it prints
-- is left out.
use nodejs_movy_data.Prelude.{
  ℕ, ◌+◌, ◌-◌, min, max, String, Bool, true, not, ◌&&◌, Option, none, some, List, [], ◌∷◌, map,
  filter, length, is_some, get_or, ltb, ◌==◌, if◌then◌else◌, Dict, lookup, insert, delete, values,
}
use nodejs_movy_data.Events.Types.{
  TableMigrationPlan, plan_ready, table_progress, table_finished, overall_progress,
}
use nodejs_movy_data.Migrate.Schema.{TableSchema, TableMigrationResult, MigrationResult}
use nodejs_movy_data.Migrate.Failure.{Failure, other}
use nodejs_movy_data.Migrate.Effects.{Result, Event, Session, Action, emitted, emit, throw, ◌>>◌}
use nodejs_movy_data.Migrate.Carry.{DatabaseType, is_postgres}
use nodejs_movy_data.Migrate.Planner.{plan, has, add}

-- One call of the migrator's progress callback, and when it came.
pub record Sample : Type 0 where
  pub table_name : String
  pub rows_done : ℕ
  pub rows_total : ℕ
  pub at : ℕ

pub record Progress : Type 0 where
  pub rows_done_by_table : Dict ℕ
  pub completed_tables : Dict ℕ
  pub table_started_at : Dict ℕ
  pub emitted_finished : List String

abbrev pub no_progress : Progress
no_progress = record {
  rows_done_by_table = [];
  completed_tables = [];
  table_started_at = [];
  emitted_finished = [];
}

abbrev pub sum : List ℕ → ℕ
sum [] = 0
sum (n ∷ ns) = n + sum ns

unfoldable pub is_completion : Sample → Bool
is_completion x = ltb 0 x.rows_total && x.rows_done == x.rows_total

unfoldable pub count_sample : Sample → Progress → Progress
count_sample x p =
    let started =
      if is_some (lookup x.table_name p.table_started_at)
      then p.table_started_at
      else insert x.table_name x.at p.table_started_at in
    if is_completion x
    then record {
      rows_done_by_table = delete x.table_name p.rows_done_by_table;
      completed_tables = insert x.table_name x.rows_done p.completed_tables;
      table_started_at = started;
      emitted_finished = add x.table_name p.emitted_finished;
    }
    else record p {
      rows_done_by_table = insert x.table_name x.rows_done p.rows_done_by_table;
      table_started_at = started;
    }

-- The numerator and the denominator of the overall progress.
unfoldable pub overall_done : Progress → ℕ
overall_done p = sum (values p.completed_tables) + sum (values p.rows_done_by_table)

abbrev pub estimate_of : Dict ℕ → String → ℕ
estimate_of estimates t = get_or (lookup t estimates) 0

abbrev pub in_progress_total : Dict ℕ → Progress → String → ℕ
in_progress_total estimates p t = max (estimate_of estimates t) (estimate_of p.rows_done_by_table t)

abbrev pub is_running : Progress → String → Bool
is_running p t = is_some (lookup t p.rows_done_by_table)

abbrev pub is_pending : Progress → String → Bool
is_pending p t = not (is_some (lookup t p.completed_tables)) && not (is_running p t)

unfoldable pub overall_total : List String → Dict ℕ → Progress → ℕ
overall_total load_order estimates p =
    sum (values p.completed_tables)
    + sum (map (in_progress_total estimates p) (filter (is_running p) load_order))
    + sum (map (estimate_of estimates) (filter (is_pending p) load_order))

-- Percentages: `Math.min(100, Math.round(done / total * 100))`, and the same unrounded.
pub record Percent (P : Type 0) : Type 0 where
  pub zero_pct : P
  pub rounded : (rows_done rows_total : ℕ) → P
  pub exact : (rows_done rows_total : ℕ) → P

module _ {P : Type 0} (percent : Percent P) where
  abbrev pub sample_event : Sample → Progress → Event P
  sample_event x p =
      if is_completion x
      then table_finished x.table_name x.rows_done
          (x.at - get_or (lookup x.table_name p.table_started_at) x.at) true none
      else table_progress x.table_name x.rows_done x.rows_total (
          if ltb 0 x.rows_total then percent.rounded x.rows_done x.rows_total else percent.zero_pct)

  abbrev pub overall_event : List String → Dict ℕ → Progress → Event P
  overall_event load_order estimates p =
      let done = overall_done p in
      let total = overall_total load_order estimates p in
      overall_progress done total
        (if ltb 0 total then percent.exact done total else percent.zero_pct)
        (length p.completed_tables) (length load_order)

  -- The callback on the samples in turn: the counts and the events.
  unfoldable pub report_samples :
      List String → Dict ℕ → Progress → List Sample → Progress × List (Event P)
  report_samples load_order estimates p [] = (p, [])
  report_samples load_order estimates p (x ∷ xs) =
      let p' = count_sample x p in
      let rest = report_samples load_order estimates p' xs in
      (rest.0, sample_event x p' ∷ overall_event load_order estimates p' ∷ rest.1)

  -- The late samples, each batch counted after the ones before it.
  unfoldable pub report_late :
      List String → Dict ℕ → Progress → List (List Sample) → List (List (Event P))
  report_late load_order estimates p [] = []
  report_late load_order estimates p (xs ∷ xss) =
      let reported = report_samples load_order estimates p xs in
      reported.1 ∷ report_late load_order estimates reported.0 xss

  abbrev pub result_event : TableMigrationResult → Event P
  result_event t = table_finished t.table_name t.rows_copied t.duration_ms t.success t.error

  unfoldable pub report_results : List String → List TableMigrationResult → List (Event P)
  report_results emitted_finished [] = []
  report_results emitted_finished (t ∷ ts) =
      let rest = report_results emitted_finished ts in
      if has t.table_name emitted_finished then rest else result_event t ∷ rest

-- How `migrate` of the pair's migrator ends. When it throws, workers of its may be running still, and
-- report on: the samples are those that come after the next emit of the run's, after the one after it,
-- and so on. It returns only when all of its workers have ended.
pub data Ending : Type 0 where
  returned : MigrationResult → Ending
  threw : Failure → List (List Sample) → Ending

-- What `migrate` does: the samples that it reported up to its end, or to the next emit if it threw, and
-- its end.
abbrev pub Copy : Type 0 → Type 0
Copy W = TableMigrationPlan → ℕ → Dict ℕ → W → List Sample × (Ending × W)

abbrev pub max_workers : ℕ
max_workers = 4

unfoldable pub worker_count : DatabaseType → DatabaseType → TableMigrationPlan → ℕ
worker_count source dest p =
    if is_postgres source && is_postgres dest
    then min max_workers (if ltb 0 (length p.load_order) then length p.load_order else 1)
    else 1

module _ {W P : Type 0} (watched : Bool) (percent : Percent P) where
  unfoldable pub emit_all : List (Event P) → Session W P → Session W P
  emit_all [] s = s
  emit_all (e ∷ es) s = emit_all es (emitted watched e s)

  abbrev pub report_rest : Progress → MigrationResult → Action W P MigrationResult
  report_rest p r s = (Result.ok r, emit_all (report_results percent p.emitted_finished r.tables) s)

  unfoldable pub end_copy :
      List String → Dict ℕ → Progress → Ending × W → Action W P MigrationResult
  end_copy load_order estimates p (returned r, w) s = report_rest p r (record s { outside = w })
  end_copy load_order estimates p (threw e later, w) s = (
    Result.err e,
    record s { outside = w; late = report_late percent load_order estimates p later },
  )

  unfoldable pub copy_tables : Copy W → TableMigrationPlan → ℕ → Dict ℕ → Action W P MigrationResult
  copy_tables copy p workers estimates s =
      let run = copy p workers estimates s.outside in
      let reported = report_samples percent p.load_order estimates no_progress run.0 in
      end_copy p.load_order estimates reported.0 run.1 (emit_all reported.1 s)

  -- `none` of the planner does not happen: see Migrate.Plans.
  unfoldable pub follow :
      Copy W
      → DatabaseType
      → DatabaseType
      → Dict ℕ
      → Option TableMigrationPlan
      → Action W P MigrationResult
  follow copy source dest estimates none = throw (other "no plan")
  follow copy source dest estimates (some p) =
      let workers = worker_count source dest p in
      emit watched (plan_ready p estimates workers) >> copy_tables copy p workers estimates

  unfoldable pub migrate_data :
      (before_text : String → String → Bool)
      → Copy W
      → DatabaseType
      → DatabaseType
      → List TableSchema
      → Dict ℕ
      → Action W P MigrationResult
  migrate_data before_text copy source dest tables estimates =
      follow copy source dest estimates (plan before_text estimates tables)
