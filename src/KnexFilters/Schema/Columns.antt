-- ===== src/KnexFilters/Schema/Columns.antt =====
-- The groups of tables against the rows.
use rocket_toolkit.Prelude.{
  ◌≡◌, refl, sym, ap, ◌∙◌, Bool, true, false, not, ◌&&◌, ◌||◌, Bool-cases, inl, inr, none, some,
  List, [], ◌∷◌, if◌then◌else◌,
}
use rocket_toolkit.KnexFilters.Names.{Text, Name, text_eq, text_eq-eq, text_eq_refl, decompose}
use rocket_toolkit.KnexFilters.Schema.{
  Row, group_of, add_to_group, group_by_schema, in_group, other_db, schema_or, has_name,
  table_has_column,
}

-- Some row has this schema and this table.
unfoldable pub is_listed : Text → Text → List Row → Bool
is_listed schema table [] = false
is_listed schema table (row ∷ rows) =
    (text_eq row.schema schema && text_eq row.table table) || is_listed schema table rows

in_group-add_to_group :
    (key table : Text) (row : Row) (groups : List (Text × List Text))
    → in_group (group_of key (add_to_group row groups)) table ≡ (
        (text_eq row.schema key && text_eq row.table table) || in_group (group_of key groups) table)
in_group-add_to_group key table row [] = elim (Bool-cases (text_eq row.schema key)) [
  | inl same ↦ rw same
  | inr other ↦ rw other
]
in_group-add_to_group key table row ((k, tables) ∷ groups) =
    elim (Bool-cases (text_eq k row.schema)) [
      | inl own ↦
          rw (own, ap (λ s. text_eq s key) (text_eq-eq k row.schema own))
            (elim (Bool-cases (text_eq row.schema key)) [
              | inl same ↦ rw same
              | inr other ↦ rw other
            ])
      | inr foreign ↦ rw foreign (elim (Bool-cases (text_eq k key)) [
        | inl same ↦ rw (same, not_both k key row.schema same foreign)
        | inr other ↦ rw other (in_group-add_to_group key table row groups)
      ])
    ]
  where
    not_both :
        (k key schema : Text)
        → text_eq k key ≡ true
        → text_eq k schema ≡ false
        → text_eq schema key ≡ false
    not_both k key schema same foreign = elim (Bool-cases (text_eq schema key)) [
      | inl e ↦
          let p : k ≡ schema = text_eq-eq k key same ∙ sym (text_eq-eq schema key e) in
          let q = sym (ap (λ s. text_eq s schema) p ∙ text_eq_refl schema) ∙ foreign in absurd (cc)
      | inr e ↦ e
    ]

in_group-group_by_schema :
    (key table : Text) (rows : List Row)
    → in_group (group_of key (group_by_schema rows)) table ≡ is_listed key table rows
unfolding group_by_schema is_listed
in_group-group_by_schema key table [] = refl
in_group-group_by_schema key table (row ∷ rows) =
    in_group-add_to_group key table row (group_by_schema rows)
    ∙ ap (λ b. (text_eq row.schema key && text_eq row.table table) || b)
        (in_group-group_by_schema key table rows)

-- the answer of the database for a name of these components
abbrev pub listed_name : Text → Text → List Row → Name × Name × Name → Bool
listed_name default_schema db_name rows (db, schema, none) = false
listed_name default_schema db_name rows (db, schema, some table) =
    not (other_db db db_name) && is_listed (schema_or schema default_schema) table rows

module _ (component : Text → Text) (default_schema db_name : Text) (rows : List Row) where
  -- A table has the column exactly when it is of this database, or names none, and the rows hold it
  -- with its schema, or with the default schema when it names none.
  pub table_has_column_lem :
      (name : Name)
      → table_has_column component default_schema db_name rows name
        ≡ listed_name default_schema db_name rows (decompose component name)
  unfolding table_has_column
  table_has_column_lem name = of_components (decompose component name)
    where
      of_components :
          (parts : Name × Name × Name)
          → (let (db, schema, table) = parts in
              if other_db db db_name
              then false
              else has_name component default_schema db_name rows
                  (schema_or schema default_schema)
                  table)
            ≡ listed_name default_schema db_name rows parts
      of_components (db, schema, none) = elim (Bool-cases (other_db db db_name)) [
        | inl other ↦ rw other
        | inr own ↦ rw own
      ]
      of_components (db, schema, some table) = elim (Bool-cases (other_db db db_name)) [
        | inl other ↦ rw other
        | inr own ↦ rw own (in_group-group_by_schema (schema_or schema default_schema) table rows)
      ]
