-- ===== src/Migrate/Carried.antt =====
-- The columns that keep numbering themselves after `carry_auto_increment`.
use nodejs_movy_data.Prelude.{
  ◌≤◌, String, true, false, ◌&&◌, Option, none, some, List, [], ◌∷◌, map, filter, length, str_eq,
  eq_iff, ◌≡◌, refl, arith, All, Bool-cases, inl, inr, and_false,
}
use nodejs_movy_data.Migrate.Language.{Language}
use nodejs_movy_data.Migrate.Schema.{ColumnSchema, TableSchema}
use nodejs_movy_data.Migrate.Carry.{
  DatabaseType, postgres, mysql, mssql, snowflake, same_type, is_postgres, numbers_itself, may_keep,
  keeper_for, carry_column, carry_auto_increment,
}

-- No name twice, as in a table's columns.
abbrev pub Distinct : List String → Type 0
Distinct [] = Unit
Distinct (n ∷ ns) = All (λ m. str_eq m n ≡ false) ns × Distinct ns

abbrev pub column_names : List ColumnSchema → List String
column_names cs = map (λ c. c.name) cs

module _ (js : Language) where
  numbers-carry_column :
      (dest : DatabaseType) (keeper : Option (Option String)) (c : ColumnSchema)
      → numbers_itself (carry_column js dest keeper c)
        ≡ (numbers_itself c && may_keep keeper c.name)
  unfolding carry_column
  numbers-carry_column dest keeper c = elim (Bool-cases (numbers_itself c)) [
    | inl t ↦ elim (Bool-cases (may_keep keeper c.name)) [
      | inl k ↦ rw (t, k) t
      | inr k ↦ rw (t, k) refl
    ]
    | inr f ↦ rw f f
  ]

  -- Beside a column with the keeper's name no other keeps.
  others_none :
      (dest : DatabaseType) (keeper name : String) (cs : List ColumnSchema)
      → str_eq keeper name ≡ true
      → All (λ m. str_eq m name ≡ false) (column_names cs)
      → filter numbers_itself (map (carry_column js dest (some (some keeper))) cs) ≡ []
  others_none dest keeper name [] t h = refl
  others_none dest keeper name (c ∷ cs) t h =
      rw (numbers-carry_column dest (some (some keeper)) c, other, and_false (numbers_itself c))
        (others_none dest keeper name cs t h.1)
    where
      other : str_eq keeper c.name ≡ false
      other = grind (arith, eq_iff keeper name, eq_iff keeper c.name, eq_iff c.name name, h.0)

  -- Of distinct names at most one is the keeper's.
  kept_le_one :
      (dest : DatabaseType) (keeper : Option String) (cs : List ColumnSchema)
      → Distinct (column_names cs)
      → length (filter numbers_itself (map (carry_column js dest (some keeper)) cs)) ≤ 1
  kept_le_one dest keeper [] d = omega arith
  kept_le_one dest none (c ∷ cs) d =
      rw (numbers-carry_column dest (some none) c, and_false (numbers_itself c))
        (kept_le_one dest none cs d.1)
  kept_le_one dest (some keeper) (c ∷ cs) d =
      elim (Bool-cases (numbers_itself c && str_eq keeper c.name)) [
        | inl t ↦
            rw
              (
                numbers-carry_column dest (some (some keeper)) c,
                t,
                others_none dest keeper c.name cs (ground arith) d.0,
              )
              (omega arith)
        | inr f ↦
            rw (numbers-carry_column dest (some (some keeper)) c, f)
              (kept_le_one dest (some keeper) cs d.1)
      ]

  -- A table whose columns have distinct names and that goes to another engine, other than PostgreSQL,
  -- has at most one column there that numbers itself.
  pub carry_auto_increment-le-one :
      (table : TableSchema) (source dest : DatabaseType)
      → Distinct (column_names table.columns)
      → same_type source dest ≡ false
      → is_postgres dest ≡ false
      → length (filter numbers_itself (carry_auto_increment js table source dest).table.columns) ≤ 1
  unfolding carry_auto_increment keeper_for
  carry_auto_increment-le-one table source postgres d s p = cc
  carry_auto_increment-le-one table source mysql d s p = rw s (kept_le_one mysql _ table.columns d)
  carry_auto_increment-le-one table source mssql d s p = rw s (kept_le_one mssql _ table.columns d)
  carry_auto_increment-le-one table source snowflake d s p =
      rw s (kept_le_one snowflake _ table.columns d)
