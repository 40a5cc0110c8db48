-- ===== src/KnexFilters/Register/Filtered.antt =====
-- A filter that `createFilter` makes, on the queries on other tables.
use rocket_toolkit.Prelude.{
  ◌≡◌, refl, ap, ◌∙◌, Bool, false, Option, none, some, List, [], ◌∷◌, if◌then◌else◌,
}
use rocket_toolkit.KnexFilters.Names.{Text, Name, split_table_and_alias}
use rocket_toolkit.KnexFilters.QueryBuilder.{
  Method, insert, update, del, other_method, Clause, Query, Hooks, on_clauses, apply_filter,
  by_method, apply_on_select_filter, apply_on_insert_filter, apply_on_update_filter,
  apply_on_delete_filter, run_select, run_insert, run_update, run_delete,
}
use rocket_toolkit.KnexFilters.Register.{no_hooks, create_filter}

module _ {R B : Type 0} (predicate : Name → Bool) (hooks : Hooks R B) where
  abbrev pub name_of : Option Text → Name
  name_of table = (split_table_and_alias table).0

  -- the table of no clause passes the predicate
  abbrev pub MissesAll : List Clause → Type 0
  MissesAll [] = Unit
  MissesAll (clause ∷ clauses) = (predicate (name_of clause.table) ≡ false) × MissesAll clauses

  clauses_missed :
      (clauses : List Clause) (b : B)
      → MissesAll clauses
      → on_clauses (create_filter predicate hooks) clauses b ≡ b
  unfolding create_filter
  clauses_missed [] b h = refl
  clauses_missed (clause ∷ clauses) b (h, hs) =
      ap
        (λ (t : Bool). on_clauses (create_filter predicate hooks) clauses (
          run_select (if t then hooks else no_hooks).on_select (name_of clause.table)
            (split_table_and_alias clause.table).1 clause b))
        h
      ∙ clauses_missed clauses b hs

  missed :
      (q : Query R) (method : Option Method) (b : B)
      → predicate (name_of q.table) ≡ false
      → MissesAll q.statements
      → by_method (create_filter predicate hooks) q method b ≡ b
  unfolding create_filter apply_on_select_filter apply_on_insert_filter apply_on_update_filter
      apply_on_delete_filter
  missed q none b h hs = refl
  missed q (some insert) b h hs =
      ap
        (λ (t : Bool).
          run_insert (if t then hooks else no_hooks).on_insert (name_of q.table)
            (split_table_and_alias q.table).1 q.inserted b)
        h
  missed q (some update) b h hs =
      ap
        (λ (t : Bool).
          run_update (if t then hooks else no_hooks).on_update (name_of q.table)
            (split_table_and_alias q.table).1 q.updates b)
        h
  missed q (some del) b h hs =
      ap
        (λ (t : Bool).
          run_delete (if t then hooks else no_hooks).on_delete (name_of q.table)
            (split_table_and_alias q.table).1 b)
        h
  missed q (some other_method) b h hs =
      clauses_missed (record { table = q.table; join_type = none } ∷ q.statements) b (h, hs)

  -- When neither the table of the query nor a joined one passes the predicate, no hook of the filter
  -- changes the builder, whatever the method of the query is.
  pub apply_filter-create_filter :
      (read : B → Query R) (b : B)
      → predicate (name_of (read b).table) ≡ false
      → MissesAll (read b).statements
      → apply_filter read (create_filter predicate hooks) b ≡ b
  unfolding apply_filter
  apply_filter-create_filter read b h hs = missed (read b) (read b).method b h hs
