-- ===== src/Migrate/Schema.antt =====
-- packages/core/src/domain/types: schema.types.ts, migration.types.ts and the details of a step.
-- `null` and a missing field are both `none`.
use nodejs_movy_data.Prelude.{ℕ, String, Bool, Option, List, Dict}

pub record ColumnSchema : Type 0 where
  pub name : String
  pub data_type : String
  pub is_nullable : Bool
  pub default_value : Option String
  pub character_max_length : Option ℕ
  pub numeric_precision : Option ℕ
  pub numeric_scale : Option ℕ
  pub auto_increment : Option Bool
  pub character_set : Option String
  pub collation : Option String

pub data ConstraintType : Type 0 where
  primary_key unique_key foreign_key check_rule : ConstraintType

pub record ConstraintSchema : Type 0 where
  pub name : String
  pub type_of : ConstraintType
  pub columns : List String
  pub referenced_table : Option String
  pub referenced_columns : Option (List String)
  pub on_delete : Option String
  pub on_update : Option String
  pub check_expression : Option String

pub record IndexSchema : Type 0 where
  pub name : String
  pub columns : List String
  pub is_unique : Bool
  pub method : String

pub record TableSchema : Type 0 where
  pub name : String
  pub columns : List ColumnSchema
  pub constraints : List ConstraintSchema
  pub indexes : List IndexSchema
  pub engine : Option String
  pub character_set : Option String
  pub collation : Option String
  pub auto_increment : Option ℕ

pub record SequenceSchema : Type 0 where
  pub name : String
  pub start_value : String
  pub min_value : String
  pub max_value : String
  pub increment_by : String
  pub cycle_option : Bool
  pub last_value : Option String

pub record EnumSchema : Type 0 where
  pub name : String
  pub values : List String

pub record DatabaseSchema : Type 0 where
  pub tables : List TableSchema
  pub sequences : List SequenceSchema
  pub enums : List EnumSchema

pub record ColumnDiff : Type 0 where
  pub column_name : String
  pub source_type : String
  pub target_type : String

-- The list of an object's fields that names a table beside something of it is a list of pairs.
pub record ConstraintToAdd : Type 0 where
  pub table_name : String
  pub constraint : ConstraintSchema
  pub column_types : Option (Dict String)

pub record ConstraintToDrop : Type 0 where
  pub table_name : String
  pub constraint_name : String
  pub constraint_type : ConstraintType

pub record SchemaDiff : Type 0 where
  pub tables_to_create : List TableSchema
  pub tables_to_drop : List String
  pub columns_to_add : List (String × ColumnSchema)
  pub columns_to_drop : List (String × String)
  pub columns_to_alter : List (String × ColumnDiff)
  pub constraints_to_add : List ConstraintToAdd
  pub constraints_to_drop : List ConstraintToDrop
  pub indexes_to_create : List (String × IndexSchema)
  pub indexes_to_drop : List (String × String)
  pub sequences_to_create : List SequenceSchema
  pub enums_to_create : List EnumSchema

pub record TableMigrationResult : Type 0 where
  pub table_name : String
  pub rows_copied : ℕ
  pub duration_ms : ℕ
  pub success : Bool
  pub error : Option String

pub record MigrationResult : Type 0 where
  pub tables : List TableMigrationResult
  pub total_duration_ms : ℕ
  pub success : Bool

pub record SchemaDiffSummary : Type 0 where
  pub tables_to_create : ℕ
  pub tables_to_drop : ℕ
  pub columns_to_add : ℕ
  pub columns_to_drop : ℕ
  pub columns_to_alter : ℕ
  pub constraints_to_add : ℕ
  pub constraints_to_drop : ℕ
  pub indexes_to_create : ℕ
  pub indexes_to_drop : ℕ
  pub sequences_to_create : ℕ
  pub enums_to_create : ℕ

pub data StepDetail : Type 0 where
  create_database : (database : String) (created : Bool) → StepDetail
  inspect_and_diff :
      (source_tables source_sequences source_enums : ℕ) (diff : SchemaDiffSummary) → StepDetail
  triggers : (tables : ℕ) → StepDetail
  create_indexes : (indexes : ℕ) → StepDetail
  reset_sequences : (sequences : ℕ) → StepDetail
  migrate_data : (tables rows_copied failed : ℕ) → StepDetail

-- What the events of a run carry besides: a step's detail and the result of the run.
pub data Carried : Type 0 where
  step_detail : StepDetail → Carried
  run_result : MigrationResult → Carried
