-- ===== src/Migrate/Tests.antt =====
-- The migration core on a small destination: its state is the list of tables whose triggers are off.
use nodejs_movy_data.Prelude.{
  ℕ, map, ◌≤◌, String, Bool, true, false, none, some, List, [], ◌∷◌, ◌≡◌, refl, ◌⊎◌, inl, inr, Has,
  filter, length, if◌then◌else◌, lookup, insert, ltb,
}
use nodejs_movy_data.Events.Types.{EventInput, TableMigrationPlan, LogLevel, log}
use nodejs_movy_data.Migrate.Schema.{
  ColumnSchema, ConstraintSchema, primary_key, foreign_key, TableSchema, DatabaseSchema, SchemaDiff,
  MigrationResult,
}
use nodejs_movy_data.Migrate.Language.{Language}
use nodejs_movy_data.Migrate.Failure.{Failure, is_cancelled, other}
use nodejs_movy_data.Migrate.Effects.{Event, and_then, ok, Call}
use nodejs_movy_data.Migrate.Carry.{mysql, postgres, numbers_itself, carry_auto_increment}
use nodejs_movy_data.Migrate.Carried.{carry_auto_increment-le-one}
use nodejs_movy_data.Migrate.Planner.{
  has, plan, flat, level_loop, graph_of, link_tables, link_constraints, clear_graph, visit_level,
  visit_children, visit_child, place, sort_tables,
}
use nodejs_movy_data.Migrate.Counting.{count}
use nodejs_movy_data.Migrate.Names.{names_of}
use nodejs_movy_data.Migrate.Plans.{plan_total, plan_loads_once, plan_parents_first}
use nodejs_movy_data.Migrate.Translate.{translate_diff}
use nodejs_movy_data.Migrate.Progress.{
  Sample, returned, threw, migrate_data, follow, copy_tables, end_copy, report_samples, report_late,
  emit_all, count_sample, overall_done, overall_total, is_completion, worker_count,
}
use nodejs_movy_data.Migrate.Orchestrator.{
  could_not, run, run_steps, load_steps, step, validate_connections, connect_or_explain,
  retry_connect, create_database, compare_schemas, sync_schema, copy_data, compensate,
}
use nodejs_movy_data.Migrate.Ports.{Config, Ports}
use nodejs_movy_data.Migrate.Lifecycle.{idle, over, trace}
use nodejs_movy_data.Migrate.Outcome.{run-refines_lifecycle}
use nodejs_movy_data.Migrate.Triples.{Post}
use nodejs_movy_data.Migrate.Triggers.{TriggerContract, run_restores_triggers}

abbrev column : String → Bool → ColumnSchema
column name auto = record {
  name = name;
  data_type = "int";
  is_nullable = false;
  default_value = none;
  character_max_length = none;
  numeric_precision = none;
  numeric_scale = none;
  auto_increment = some auto;
  character_set = none;
  collation = none;
}

abbrev reference : String → ConstraintSchema
reference parent = record {
  name = "fk";
  type_of = foreign_key;
  columns = "parent_id" ∷ [];
  referenced_table = some parent;
  referenced_columns = none;
  on_delete = none;
  on_update = none;
  check_expression = none;
}

abbrev leads : ConstraintSchema
leads = record {
  name = "pk";
  type_of = primary_key;
  columns = "id" ∷ [];
  referenced_table = none;
  referenced_columns = none;
  on_delete = none;
  on_update = none;
  check_expression = none;
}

abbrev table : String → List ColumnSchema → List ConstraintSchema → TableSchema
table name columns constraints = record {
  name = name;
  columns = columns;
  constraints = constraints;
  indexes = [];
  engine = none;
  character_set = none;
  collation = none;
  auto_increment = none;
}

abbrev items : TableSchema
items = table "items" [] (reference "orders" ∷ [])

abbrev orders : TableSchema
orders = table "orders" (column "id" true ∷ column "number" true ∷ []) (leads ∷ [])

-- A table refers to itself by a cycle of two.
abbrev shop : List TableSchema
shop = items ∷ table "a" [] (reference "b" ∷ []) ∷ table "b" [] (reference "a" ∷ []) ∷ orders ∷ []

abbrev never_before : String → String → Bool
never_before a b = false

abbrev the_plan : TableMigrationPlan
the_plan = record {
  load_order = "orders" ∷ "items" ∷ "a" ∷ "b" ∷ [];
  cleanup_order = "b" ∷ "a" ∷ "items" ∷ "orders" ∷ [];
  levels = ("orders" ∷ []) ∷ ("items" ∷ []) ∷ ("a" ∷ "b" ∷ []) ∷ [];
  cyclic_tables = "a" ∷ "b" ∷ [];
}

plan-shop : plan never_before [] shop ≡ some the_plan
unfolding plan level_loop graph_of link_tables link_constraints clear_graph lookup insert
    visit_level visit_children visit_child place sort_tables
plan-shop = refl

plan_total_example : (p : TableMigrationPlan) × (plan never_before [] shop ≡ some p)
plan_total_example = plan_total shop never_before []

plan_loads_once_example :
    count "items" the_plan.load_order ≡ (if has "items" (names_of shop) then 1 else 0)
plan_loads_once_example = plan_loads_once shop never_before [] the_plan plan-shop "items"

plan_parents_first_example : has "orders" (flat (("orders" ∷ []) ∷ [])) ≡ true
plan_parents_first_example =
    plan_parents_first shop never_before [] the_plan plan-shop (("orders" ∷ []) ∷ []) ("items" ∷ [])
      (("a" ∷ "b" ∷ []) ∷ []) refl items (inl refl) (reference "orders") (inl refl) "orders"
      (refl, refl, refl) refl refl

abbrev plain : Language
plain = record {
  to_upper = λ t. t;
  to_lower = λ t. t;
  trim = λ t. t;
  matches = λ p t. false;
  replace = λ p b t. t;
  cut = λ n t. t;
  show = λ n. "n";
}

carry_auto_increment-le-one_example :
    length (filter numbers_itself (carry_auto_increment plain orders postgres mysql).table.columns)
    ≤ 1
carry_auto_increment-le-one_example =
    carry_auto_increment-le-one plain orders postgres mysql ((refl, tt), (tt, tt)) refl refl

abbrev done : {A : Type 0} → A → Call (List String) A
done a w = (ok a, w)

abbrev source_schema : DatabaseSchema
source_schema = record { tables = shop; sequences = []; enums = [] }

abbrev no_diff : SchemaDiff
no_diff = record {
  tables_to_create = [];
  tables_to_drop = [];
  columns_to_add = [];
  columns_to_drop = [];
  columns_to_alter = [];
  constraints_to_add = [];
  constraints_to_drop = [];
  indexes_to_create = [];
  indexes_to_drop = [];
  sequences_to_create = [];
  enums_to_create = [];
}

abbrev copied : MigrationResult
copied = record { tables = []; total_duration_ms = 0; success = true }

-- The user cancels as soon as triggers are off.
abbrev ports : Ports (List String) ℕ
ports = record {
  js = plain;
  percent = record { zero_pct = 0; rounded = λ d t. d; exact = λ d t. d };
  before_text = never_before;
  now = λ w. 0;
  aborted = λ w. ltb 0 (length w);
  wait = λ d w. w;
  connect_source = done tt;
  connect_admin = done tt;
  connect_dest = done tt;
  end_connections = λ w. w;
  ensure_database = λ name. done true;
  inspect_source = done source_schema;
  inspect_dest = done source_schema;
  diff = λ a b. ok no_diff;
  translator = record { column_type = λ t. t; default_of = λ d. d; constraint_of = λ c. c };
  apply = λ d. done tt;
  disable_triggers = λ names w. (ok tt, names);
  enable_triggers = λ names w. (ok tt, []);
  row_estimates = done [];
  migrate = λ p n est w. ([], (returned copied, w));
  create_indexes = λ d. done tt;
  reset_sequences = λ s. done tt;
}

abbrev config : Config
config = record {
  source_type = postgres;
  dest_type = mysql;
  source_database = "shop";
  dest_database = "copy";
  watched = true;
}

abbrev sample : ℕ → Sample
sample n = record { table_name = "orders"; rows_done = n; rows_total = 9; at = n }

-- A worker crashes, and another one reports on after the step, and after the run.
abbrev crashing : Ports (List String) ℕ
crashing = record ports {
  aborted = λ w. false;
  migrate = λ p n est w. (
    sample 1 ∷ [],
    (threw (other "crash") ((sample 2 ∷ []) ∷ (sample 3 ∷ sample 9 ∷ []) ∷ []), w),
  );
}

run-refines_lifecycle_example :
    (late : Bool) × (trace (some idle) (run config crashing []).1.events ≡ some (over late))
run-refines_lifecycle_example = run-refines_lifecycle config crashing refl []

abbrev AllOn : List String → Type 0
AllOn w = w ≡ []

abbrev OffOnly : List String → List String → Type 0
OffOnly names w = (w ≡ []) ⊎ (w ≡ names)

ports-TriggerContract : TriggerContract ports AllOn OffOnly
ports-TriggerContract = record {
  on_off = λ names w h. inl h;
  disables = λ names w h. inr refl;
  enables = λ names w h e. refl;
  tries = λ names w h. inl refl;
  wait_on = λ d w h. h;
  source_on = λ w h. h;
  admin_on = λ w h. h;
  dest_on = λ w h. h;
  ensure_on = λ d w h. h;
  inspect_source_on = λ w h. h;
  inspect_dest_on = λ w h. h;
  apply_on = λ d w h. h;
  estimates_off = λ ns w h. h;
  migrate_off = λ ns p n est w h. h;
  indexes_on = λ d w h. h;
  sequences_on = λ d w h. h;
  end_on = λ w h. h;
}

run_restores_triggers_example :
    Post
      (λ x s. s.outside ≡ [])
      (λ e s.
        is_cancelled e ≡ true
        → (s.outside ≡ [])
          ⊎ ((f : Failure) × Has (log LogLevel.warn (could_not config ports f) none) s.events))
      (run config ports [])
run_restores_triggers_example =
    run_restores_triggers config ports AllOn OffOnly ports-TriggerContract refl [] refl

abbrev kind : Event ℕ → String
kind (EventInput.step_finished s t d x e) = t
kind (EventInput.run_finished t d r e) = t
kind (EventInput.table_progress t d r p) = "progress"
kind (EventInput.table_finished t r d s e) = "table"
kind (EventInput.overall_progress d r p t u) = "overall"
kind _ = ""

-- The events of the crash: two reports follow the failed step, and four the end of the run.
crash_events :
    map kind (run config crashing []).1.events
    ≡ "" ∷ "" ∷ "ok" ∷ "" ∷ "ok" ∷ "" ∷ "ok" ∷ "" ∷ "ok" ∷ "" ∷ "ok" ∷ "" ∷ "" ∷ "progress"
      ∷ "overall" ∷ "failed" ∷ "progress" ∷ "overall" ∷ "failed" ∷ "progress" ∷ "overall" ∷ "table"
      ∷ "overall" ∷ []
unfolding run run_steps load_steps step validate_connections connect_or_explain retry_connect
    create_database compare_schemas sync_schema copy_data compensate and_then migrate_data follow
    copy_tables end_copy report_samples report_late emit_all count_sample overall_done overall_total
    is_completion plan level_loop graph_of link_tables link_constraints clear_graph lookup insert
    visit_level visit_children visit_child place sort_tables worker_count translate_diff
    is_cancelled
crash_events = refl
