-- ===== src/Migrate/Translate.antt =====
-- `SyncSchemaUseCase.translateDiff` of packages/core/src/application/use-cases/sync-schema.use-case.ts.
use nodejs_movy_data.Prelude.{
  String, Bool, false, not, ◌&&◌, ◌||◌, Option, none, some, [], ◌∷◌, map, filter, str_eq,
  if◌then◌else◌,
}
use nodejs_movy_data.Migrate.Language.{Language}
use nodejs_movy_data.Migrate.Schema.{
  ColumnSchema, ConstraintSchema, TableSchema, ColumnDiff, ConstraintToAdd, SchemaDiff,
}
use nodejs_movy_data.Migrate.Carry.{
  DatabaseType, same_type, is_postgres, numbers_itself, carry_auto_increment,
}

-- The translator of the pair of engines: `ISchemaTranslator`, an interface that each pair's adapter
-- fills, with the two engines given.
pub record Translator : Type 0 where
  pub column_type : String → String
  pub default_of : String → String
  pub constraint_of : ConstraintSchema → ConstraintSchema

module _ (js : Language) (tr : Translator) (source dest : DatabaseType) where
  -- An empty default counts as none.
  unfoldable pub translated_default : Option String → Option String
  translated_default none = none
  translated_default (some d) = if str_eq d "" then some d else some (tr.default_of d)

  abbrev pub is_text : String → Option String → Bool
  is_text t none = false
  is_text t (some d) = str_eq d t

  unfoldable pub translate_column : ColumnSchema → ColumnSchema
  translate_column col =
      let data_type = tr.column_type col.data_type in
      let default_value = translated_default col.default_value in
      record col {
        data_type = data_type;
        default_value =
            if str_eq data_type "boolean" && is_text "0" default_value
            then some "false"
            else (if str_eq data_type "boolean" && is_text "1" default_value
                then some "true"
                else default_value);
      }

  unfoldable pub translate_table : TableSchema → TableSchema
  translate_table t =
      let carried = (carry_auto_increment js t source dest).table in
      record carried {
        columns = map translate_column carried.columns;
        constraints = map tr.constraint_of carried.constraints;
      }

  -- A column added to a table that is there keeps its numbering only within one engine or on PostgreSQL.
  unfoldable pub carry_added_column : ColumnSchema → ColumnSchema
  carry_added_column column =
      let as_table : TableSchema = record {
        name = column.name;
        columns = column ∷ [];
        constraints = [];
        indexes = [];
        engine = none;
        character_set = none;
        collation = none;
        auto_increment = none;
      } in
      elim (carry_auto_increment js as_table source dest).table.columns [
        | [] ↦ column
        | carried ∷ rest ↦
            if not (numbers_itself column) || (same_type source dest || is_postgres dest)
            then carried
            else record carried { auto_increment = some false }
      ]

  unfoldable pub norm : String → String
  norm t = js.replace "/^numeric/" "decimal" (js.replace "/\\s+/g" "" (js.to_lower (js.trim t)))

  unfoldable pub base : String → String
  base t = js.replace "/\\(.*\\)$/" "" (norm t)

  -- `norm(t).includes('(')`
  unfoldable pub has_length : String → Bool
  has_length t = js.matches "/\\(/" (norm t)

  unfoldable pub already_translated : String → String → Bool
  already_translated translated target =
      if same_type source dest
      then false
      else (if has_length translated && has_length target
          then str_eq (norm translated) (norm target)
          else str_eq (base translated) (base target))

  abbrev pub translate_alter : String × ColumnDiff → String × ColumnDiff
  translate_alter (table_name, d) =
      (table_name, record d { source_type = tr.column_type d.source_type })

  abbrev pub translate_constraint : ConstraintToAdd → ConstraintToAdd
  translate_constraint e = record e { constraint = tr.constraint_of e.constraint }

  unfoldable pub translate_diff : SchemaDiff → SchemaDiff
  translate_diff diff = record diff {
    tables_to_create = map translate_table diff.tables_to_create;
    columns_to_add =
        map (λ e. (e.0, translate_column (carry_added_column e.1))) diff.columns_to_add;
    columns_to_alter =
        filter (λ e. not (already_translated e.1.source_type e.1.target_type))
          (map translate_alter diff.columns_to_alter);
    constraints_to_add = map translate_constraint diff.constraints_to_add;
  }
