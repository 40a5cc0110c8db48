-- ===== src/KnexFilters/QueryBuilder.antt =====
-- packages/knex-filters/src/queryBuilder.ts: which hooks run on a query. A hook changes the query
-- builder; the builder of knex is a state `B`, of which the fields below are read.
use rocket_toolkit.Prelude.{Option, none, some, List, [], ◌∷◌}
use rocket_toolkit.KnexFilters.Names.{Text, Name, split_table_and_alias}

pub data JoinType : Type 0 where
  inner : JoinType
  left : JoinType
  left_outer : JoinType
  right : JoinType
  right_outer : JoinType
  full : JoinType
  full_outer : JoinType
  cross : JoinType

pub data Method : Type 0 where
  insert : Method
  update : Method
  del : Method
  other_method : Method

-- The `from` clause has no join type. `table` is none where it is not a string.
pub record Clause : Type 0 where
  pub table : Option Text
  pub join_type : Option JoinType

-- `_single.insert`: one object, or an array of them
pub data OneOrMany (R : Type 0) : Type 0 where
  one : R → OneOrMany R
  many : List R → OneOrMany R

-- What the filters read of a query builder: `method` is none for a raw query, `statements` are the
-- joins among `_statements`.
pub record Query (R : Type 0) : Type 0 where
  pub method : Option Method
  pub table : Option Text
  pub inserted : OneOrMany R
  pub updates : R
  pub statements : List Clause

abbrev pub SelectHook : Type 0 → Type 0
SelectHook B = Name → Name → Clause → B → B

pub record AdvancedSelectHooks (B : Type 0) : Type 0 where
  pub from : Option (SelectHook B)
  pub inner_join : Option (SelectHook B)
  pub left_join : Option (SelectHook B)
  pub right_join : Option (SelectHook B)
  pub full_outer_join : Option (SelectHook B)
  pub cross_join : Option (SelectHook B)

pub data OnSelect (B : Type 0) : Type 0 where
  simple : SelectHook B → OnSelect B
  advanced : AdvancedSelectHooks B → OnSelect B

pub record Hooks (R B : Type 0) : Type 0 where
  pub on_select : Option (OnSelect B)
  pub on_insert : Option (Name → Name → R → B → B)
  pub on_update : Option (Name → Name → R → B → B)
  pub on_delete : Option (Name → Name → B → B)

abbrev pub Filter : Type 0 → Type 0 → Type 0
Filter R B = Name → Hooks R B

module _ {B : Type 0} where
  -- `joinType2HookMapping`
  abbrev pub join_hook : JoinType → AdvancedSelectHooks B → Option (SelectHook B)
  join_hook inner hooks = hooks.inner_join
  join_hook left hooks = hooks.left_join
  join_hook left_outer hooks = hooks.left_join
  join_hook right hooks = hooks.right_join
  join_hook right_outer hooks = hooks.right_join
  join_hook full hooks = hooks.full_outer_join
  join_hook full_outer hooks = hooks.full_outer_join
  join_hook cross hooks = hooks.cross_join

  abbrev pub hook_for : OnSelect B → Option JoinType → Option (SelectHook B)
  hook_for (simple hook) join_type = some hook
  hook_for (advanced hooks) none = hooks.from
  hook_for (advanced hooks) (some join_type) = join_hook join_type hooks

  abbrev pub run_select : Option (OnSelect B) → Name → Name → Clause → B → B
  run_select none table alias clause b = b
  run_select (some on_select) table alias clause b = elim (hook_for on_select clause.join_type) [
    | none ↦ b
    | some hook ↦ hook table alias clause b
  ]

  abbrev pub run_delete : Option (Name → Name → B → B) → Name → Name → B → B
  run_delete none table alias b = b
  run_delete (some on_delete) table alias b = on_delete table alias b

module _ {R B : Type 0} where
  abbrev pub on_clause : Filter R B → Clause → B → B
  on_clause filter clause b =
      let (table, alias) = split_table_and_alias clause.table in
      run_select (filter table).on_select table alias clause b

  abbrev pub on_clauses : Filter R B → List Clause → B → B
  on_clauses filter [] b = b
  on_clauses filter (clause ∷ clauses) b = on_clauses filter clauses (on_clause filter clause b)

  -- the clauses are taken from the query before any hook runs
  unfoldable pub apply_on_select_filter : Filter R B → Query R → B → B
  apply_on_select_filter filter q b =
      on_clauses filter (record { table = q.table; join_type = none } ∷ q.statements) b

  abbrev pub insert_rows : (R → B → B) → List R → B → B
  insert_rows hook [] b = b
  insert_rows hook (row ∷ rows) b = insert_rows hook rows (hook row b)

  -- `applyOrMap`
  abbrev pub apply_or_map : (R → B → B) → OneOrMany R → B → B
  apply_or_map hook (one row) b = hook row b
  apply_or_map hook (many rows) b = insert_rows hook rows b

  abbrev pub run_insert : Option (Name → Name → R → B → B) → Name → Name → OneOrMany R → B → B
  run_insert none table alias inserted b = b
  run_insert (some on_insert) table alias inserted b =
      apply_or_map (λ row. on_insert table alias row) inserted b

  unfoldable pub apply_on_insert_filter : Filter R B → Query R → B → B
  apply_on_insert_filter filter q b =
      let (table, alias) = split_table_and_alias q.table in
      run_insert (filter table).on_insert table alias q.inserted b

  abbrev pub run_update : Option (Name → Name → R → B → B) → Name → Name → R → B → B
  run_update none table alias updates b = b
  run_update (some on_update) table alias updates b = on_update table alias updates b

  unfoldable pub apply_on_update_filter : Filter R B → Query R → B → B
  apply_on_update_filter filter q b =
      let (table, alias) = split_table_and_alias q.table in
      run_update (filter table).on_update table alias q.updates b

  unfoldable pub apply_on_delete_filter : Filter R B → Query R → B → B
  apply_on_delete_filter filter q b =
      let (table, alias) = split_table_and_alias q.table in
      run_delete (filter table).on_delete table alias b

  abbrev pub by_method : Filter R B → Query R → Option Method → B → B
  by_method filter q none b = b
  by_method filter q (some insert) b = apply_on_insert_filter filter q b
  by_method filter q (some update) b = apply_on_update_filter filter q b
  by_method filter q (some del) b = apply_on_delete_filter filter q b
  by_method filter q (some other_method) b = apply_on_select_filter filter q b

  -- `read` is what the filter reads of the builder when it comes to it
  unfoldable pub apply_filter : (B → Query R) → Filter R B → B → B
  unfolding apply_on_insert_filter apply_on_update_filter apply_on_delete_filter
      apply_on_select_filter
  apply_filter read filter b = by_method filter (read b) (read b).method b
