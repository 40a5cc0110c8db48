-- ===== src/KnexFilters.antt =====
-- packages/knex-filters: hooks on the tables of a query, and tests on the columns of a table.
pub mod Names
pub mod QueryBuilder
pub mod Register
pub mod Schema
