-- ===== src/KnexFilters/Register.antt =====
-- packages/knex-filters/src/filters.ts: filters of a table, and their registration with a client of
-- knex, whose `runner` and `transaction` it replaces.
pub mod Order
pub mod Filtered
use rocket_toolkit.Prelude.{Bool, Option, none, List, [], ◌∷◌, if◌then◌else◌}
use rocket_toolkit.KnexFilters.Names.{Name}
use rocket_toolkit.KnexFilters.QueryBuilder.{Hooks, Filter, Query, apply_filter}

module _ {R B : Type 0} where
  abbrev pub no_hooks : Hooks R B
  no_hooks = record { on_select = none; on_insert = none; on_update = none; on_delete = none }

  unfoldable pub create_filter : (Name → Bool) → Hooks R B → Filter R B
  create_filter table_predicate hooks table = if table_predicate table then hooks else no_hooks

-- `A` is what the runner gives for a builder.
abbrev pub Runner : Type 0 → Type 0 → Type 0
Runner B A = B → A

-- What a client does of its own: run a builder, and open a transaction, whose container gets the
-- runner of the transaction; `D` is what the transaction gives.
pub record Client (B A D : Type 0) : Type 0 where
  pub runner : Runner B A
  pub transaction : (Runner B A → D) → D

module _ {R B A : Type 0} (read : B → Query R) where
  unfoldable pub extend_knex : Filter R B → Runner B A → Runner B A
  extend_knex filter inner_runner builder = inner_runner (apply_filter read filter builder)

module _ {R B A D : Type 0} (read : B → Query R) where
  unfoldable pub register_filter : Filter R B → Client B A D → Client B A D
  unfolding extend_knex
  register_filter filter knex = record {
    runner = extend_knex read filter knex.runner;
    transaction = λ container. knex.transaction (λ trx. container (extend_knex read filter trx));
  }
