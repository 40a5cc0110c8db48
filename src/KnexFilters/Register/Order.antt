-- ===== src/KnexFilters/Register/Order.antt =====
-- Which filters a query meets, and in which order.
use rocket_toolkit.Prelude.{◌≡◌, refl, List, [], ◌∷◌, foldl}
use rocket_toolkit.KnexFilters.QueryBuilder.{Query, Filter, apply_filter}
use rocket_toolkit.KnexFilters.Register.{Runner, Client, extend_knex, register_filter}

module _ {R B : Type 0} (read : B → Query R) where
  -- the filters one after the other, the one that was registered last first
  pub apply_all : List (Filter R B) → B → B
  apply_all [] builder = builder
  apply_all (filter ∷ filters) builder = apply_filter read filter (apply_all filters builder)

module _ {R B A D : Type 0} (read : B → Query R) where
  pub register_all : List (Filter R B) → Client B A D → Client B A D
  register_all filters knex = foldl (λ k filter. register_filter read filter k) knex filters

  -- When filters have been registered one after the other, a builder passes all of them before it
  -- is run, the last registered one first, and so does a builder that is run in a transaction.
  pub register_all_lem :
      (filters : List (Filter R B)) (knex : Client B A D) (container : Runner B A → D)
      → ((register_all filters knex).runner
          ≡ (λ builder. knex.runner (apply_all read filters builder)))
        × ((register_all filters knex).transaction container
            ≡ knex.transaction (λ trx. container (λ builder. trx (apply_all read filters builder))))
  unfolding register_all apply_all register_filter extend_knex
  register_all_lem [] knex container = (refl, refl)
  register_all_lem (filter ∷ filters) knex container =
      register_all_lem filters (register_filter read filter knex) container
