-- ===== src/Migrate/Carry.antt =====
-- packages/core/src/application/use-cases/carry-auto-increment.ts: which columns go on numbering
-- themselves on another engine.
use nodejs_movy_data.Prelude.{
  String, Bool, true, false, not, ◌&&◌, ◌||◌, Option, none, some, List, [], ◌∷◌, map, find, get_or,
  str_eq, if◌then◌else◌,
}
use nodejs_movy_data.Migrate.Language.{Language}
use nodejs_movy_data.Migrate.Schema.{
  ColumnSchema, ConstraintSchema, ConstraintType, primary_key, TableSchema,
}

pub data DatabaseType : Type 0 where
  postgres mysql mssql snowflake : DatabaseType

abbrev pub type_name : DatabaseType → String
type_name postgres = "postgres"
type_name mysql = "mysql"
type_name mssql = "mssql"
type_name snowflake = "snowflake"

-- `source === dest`
abbrev pub same_type : DatabaseType → DatabaseType → Bool
same_type a b = str_eq (type_name a) (type_name b)

abbrev pub is_primary_key : ConstraintType → Bool
is_primary_key primary_key = true
is_primary_key _ = false

-- `col.autoIncrement` as a condition
abbrev pub numbers_itself : ColumnSchema → Bool
numbers_itself c = get_or c.auto_increment false

pub record CarriedTable : Type 0 where
  pub table : TableSchema
  pub dropped : List String

abbrev pub first_column : Option ConstraintSchema → Option String
first_column none = none
first_column (some k) = elim k.columns [ [] ↦ none | c ∷ cs ↦ some c ]

-- The column of that name, if it numbers itself.
abbrev pub keeper_named : Option String → List ColumnSchema → Option String
keeper_named none columns = none
keeper_named (some lead) columns = elim (find (λ c. str_eq c.name lead) columns) [
  | none ↦ none
  | some c ↦ if numbers_itself c then some c.name else none
]

abbrev pub name_of : Option ColumnSchema → Option String
name_of none = none
name_of (some c) = some c.name

-- `none` is `undefined`: every column may; `some none` is `null`: none may.
unfoldable pub keeper_for : TableSchema → DatabaseType → Option (Option String)
keeper_for table postgres = none
keeper_for table mysql = some (
    keeper_named (first_column (find (λ c. is_primary_key c.type_of) table.constraints))
      table.columns)
keeper_for table _ = some (name_of (find numbers_itself table.columns))

-- `keeper === undefined || keeper === col.name`
abbrev pub may_keep : Option (Option String) → String → Bool
may_keep none name = true
may_keep (some none) name = false
may_keep (some (some keeper)) name = str_eq keeper name

abbrev pub is_postgres : DatabaseType → Bool
is_postgres postgres = true
is_postgres _ = false

abbrev pub nextval_default : String
nextval_default = "/^\\s*nextval\\s*\\(/i"

module _ (js : Language) where
  unfoldable pub carried_default : DatabaseType → Option String → Option String
  carried_default dest none = none
  carried_default dest (some d) =
      if not (is_postgres dest) && js.matches nextval_default d then none else some d

  unfoldable pub carry_column : DatabaseType → Option (Option String) → ColumnSchema → ColumnSchema
  carry_column dest keeper col =
      let kept = record col { default_value = carried_default dest col.default_value } in
      if not (numbers_itself col) || may_keep keeper col.name
      then kept
      else record kept { auto_increment = some false }

  -- The names pushed to `dropped` by the map over the columns.
  unfoldable pub dropped_names : Option (Option String) → List ColumnSchema → List String
  dropped_names keeper [] = []
  dropped_names keeper (c ∷ cs) =
      let rest = dropped_names keeper cs in
      if not (numbers_itself c) || may_keep keeper c.name then rest else c.name ∷ rest

  unfoldable pub carry_auto_increment : TableSchema → DatabaseType → DatabaseType → CarriedTable
  carry_auto_increment table source dest =
      if same_type source dest
      then record { table = table; dropped = [] }
      else let keeper = keeper_for table dest in
        record {
          table = record table { columns = map (carry_column dest keeper) table.columns };
          dropped = dropped_names keeper table.columns;
        }
