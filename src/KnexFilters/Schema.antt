-- ===== src/KnexFilters/Schema.antt =====
-- `tableHasColumn` of packages/knex-filters/src/dbSchema/mssql.ts and dbSchema/pg.ts. The rows of the
-- information schema and the defaults of the connection come from the database.
pub mod Columns
use rocket_toolkit.Prelude.{
  ℕ, ◌≡◌, refl, ap, ◌∙◌, Bool, true, false, not, ◌&&◌, ◌||◌, Bool-cases, inl, inr, Option, none,
  some, List, [], ◌∷◌, if◌then◌else◌,
}
use rocket_toolkit.KnexFilters.Names.{Text, Name, text_eq, decompose, mssql_component, pg_component}

-- a row of the columns that have the name asked for
pub record Row : Type 0 where
  pub table : Text
  pub schema : Text

-- `Map.has`, and the set found there
abbrev pub group_of : Text → List (Text × List Text) → Option (List Text)
group_of key [] = none
group_of key ((k, tables) ∷ groups) = if text_eq k key then some tables else group_of key groups

abbrev pub has : Text → List Text → Bool
has table [] = false
has table (t ∷ tables) = text_eq t table || has table tables

-- `R.groupBy` on the schema, with the tables of each group: one row more
abbrev pub add_to_group : Row → List (Text × List Text) → List (Text × List Text)
add_to_group row [] = (row.schema, row.table ∷ []) ∷ []
add_to_group row ((k, tables) ∷ groups) =
    if text_eq k row.schema
    then (k, row.table ∷ tables) ∷ groups
    else (k, tables) ∷ add_to_group row groups

unfoldable pub group_by_schema : List Row → List (Text × List Text)
group_by_schema [] = []
group_by_schema (row ∷ rows) = add_to_group row (group_by_schema rows)

abbrev pub in_group : Option (List Text) → Text → Bool
in_group none table = false
in_group (some tables) table = has table tables

-- JavaScript's `db && db != dbName`
abbrev pub other_db : Name → Text → Bool
other_db none db_name = false
other_db (some []) db_name = false
other_db (some (c ∷ cs)) db_name = not (text_eq (c ∷ cs) db_name)

-- JavaScript's `_schema ?? defaultSchema`
abbrev pub schema_or : Name → Text → Text
schema_or none default_schema = default_schema
schema_or (some schema) default_schema = schema

module _ (component : Text → Text) (default_schema db_name : Text) (rows : List Row) where
  -- a set of strings has no null
  abbrev pub has_name : Text → Name → Bool
  has_name schema none = false
  has_name schema (some table) = in_group (group_of schema (group_by_schema rows)) table

  unfoldable pub table_has_column : Name → Bool
  unfolding group_by_schema
  table_has_column table_name =
      let (db, schema, table) = decompose component table_name in
      if other_db db db_name then false else has_name (schema_or schema default_schema) table

unfoldable pub mssql : Text → Text → List Row → Name → Bool
unfolding table_has_column
mssql default_schema db_name rows = table_has_column mssql_component default_schema db_name rows

-- none where `getTablesWithColumn` gives null, for a missing connection or column
unfoldable pub pg : (Text → Text) → Text → Text → Option (List Row) → Name → Bool
unfolding table_has_column
pg to_lower_case default_schema db_name none table_name = false
pg to_lower_case default_schema db_name (some rows) table_name =
    table_has_column (pg_component to_lower_case) default_schema db_name rows table_name
