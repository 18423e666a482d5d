-- ===== src/Migrate/Ports.antt =====
-- What the orchestrator of
-- packages/core/src/application/services/migration-orchestrator.service.ts is given, its list of steps, and
-- how it sums up differences and failed tables.
use Prim.Native.String.{◌++◌ as append}
use nodejs_movy_data.Prelude.{
  ℕ, suc, ◌-◌, String, Bool, not, List, [], ◌∷◌, map, filter, take, length, get_or, ltb, str_eq,
  if◌then◌else◌, Dict,
}
use nodejs_movy_data.Events.Types.{SerialisedError}
use nodejs_movy_data.Migrate.Schema.{
  TableMigrationResult, MigrationResult, DatabaseSchema, SchemaDiff, SchemaDiffSummary,
}
use nodejs_movy_data.Migrate.Language.{Language}
use nodejs_movy_data.Migrate.Effects.{Call, Result}
use nodejs_movy_data.Migrate.Carry.{DatabaseType}
use nodejs_movy_data.Migrate.Translate.{Translator}
use nodejs_movy_data.Migrate.Progress.{Percent, Copy}

abbrev pub migration_step_order : List String
migration_step_order =
    "validate_connections" ∷ "create_database" ∷ "inspect_and_diff" ∷ "sync_schema"
    ∷ "disable_triggers" ∷ "migrate_data" ∷ "enable_triggers" ∷ "create_indexes" ∷ "reset_sequences"
    ∷ []

-- `xs.indexOf(x)`, for a text that the list has.
unfoldable pub index_of : String → List String → ℕ
index_of x [] = 0
index_of x (y ∷ ys) = if str_eq y x then 0 else suc (index_of x ys)

-- The two connections' configurations, as far as the orchestrator reads them, and whether there is a
-- context to emit to.
pub record Config : Type 0 where
  pub source_type : DatabaseType
  pub dest_type : DatabaseType
  pub source_database : String
  pub dest_database : String
  pub watched : Bool

-- The adapters of the two engines, by the interfaces of domain/ports, and what of the language and its
-- host the orchestrator reads: the clock, the abort signal, percentages and the order of texts.
pub record Ports (W P : Type 0) : Type 0 where
  pub js : Language
  pub percent : Percent P
  pub before_text : String → String → Bool
  pub now : W → ℕ
  pub aborted : W → Bool
  pub wait : ℕ → W → W
  pub connect_source : Call W Unit
  pub connect_admin : Call W Unit
  pub connect_dest : Call W Unit
  pub end_connections : W → W
  pub ensure_database : String → Call W Bool
  pub inspect_source : Call W DatabaseSchema
  pub inspect_dest : Call W DatabaseSchema
  pub diff : DatabaseSchema → DatabaseSchema → Result SchemaDiff
  pub translator : Translator
  pub apply : SchemaDiff → Call W Unit
  pub disable_triggers : List String → Call W Unit
  pub enable_triggers : List String → Call W Unit
  pub row_estimates : Call W (Dict ℕ)
  pub migrate : Copy W
  pub create_indexes : SchemaDiff → Call W Unit
  pub reset_sequences : DatabaseSchema → Call W Unit

unfoldable pub summarise_diff : SchemaDiff → SchemaDiffSummary
summarise_diff d = record {
  tables_to_create = length d.tables_to_create;
  tables_to_drop = length d.tables_to_drop;
  columns_to_add = length d.columns_to_add;
  columns_to_drop = length d.columns_to_drop;
  columns_to_alter = length d.columns_to_alter;
  constraints_to_add = length d.constraints_to_add;
  constraints_to_drop = length d.constraints_to_drop;
  indexes_to_create = length d.indexes_to_create;
  indexes_to_drop = length d.indexes_to_drop;
  sequences_to_create = length d.sequences_to_create;
  enums_to_create = length d.enums_to_create;
}

abbrev pub failed_tables_named : ℕ
failed_tables_named = 3

abbrev pub table_error_max_chars : ℕ
table_error_max_chars = 200

-- `xs.join(separator)`
abbrev pub join : String → List String → String
join separator [] = ""
join separator (x ∷ []) = x
join separator (x ∷ y ∷ ys) = append x (append separator (join separator (y ∷ ys)))

unfoldable pub failed_tables : MigrationResult → List TableMigrationResult
failed_tables r = filter (λ t. not t.success) r.tables

abbrev pub name_failed : Language → TableMigrationResult → String
name_failed js t =
    append t.table_name
      (append ": " (js.cut table_error_max_chars (get_or t.error "no reason reported")))

unfoldable pub describe_failed_tables : Language → MigrationResult → SerialisedError
describe_failed_tables js r =
    let failed = failed_tables r in
    let named = map (name_failed js) (take failed_tables_named failed) in
    let rest = length failed - length named in
    let more = if ltb 0 rest then append "; and " (append (js.show rest) " more") else "" in
    record {
      name = "TablesFailed";
      message = append (js.show (length failed)) (
          append " of " (
            append (js.show (length r.tables))
              (append " tables failed: " (append (join "; " named) more))));
    }
