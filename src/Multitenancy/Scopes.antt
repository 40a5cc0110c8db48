-- ===== src/Multitenancy/Scopes.antt =====
-- `useTenantContext` of packages/multitenancy-core/src/tenantContextAccessor.ts and `useCorrelationId`
-- of packages/correlation/src/correlationManager.ts, which keep their value in the same way: each
-- scope is a run of the async storage with one map, which all scopes share. A reader inside a scope
-- reads that map.
use rocket_toolkit.Prelude.{
  ◌≡◌, refl, String, Bool, true, Option, none, some, str_eq, if◌then◌else◌,
}
use rocket_toolkit.Multitenancy.{Tenant}

-- `shared` is the value in the map of the module.
pub record Storage (C : Type 0) : Type 0 where
  pub shared : Option C

module _ {C : Type 0} where
  -- the `set` with which a scope begins
  unfoldable pub enter_scope : C → Storage C → Storage C
  enter_scope value s = record { shared = some value }

  -- `in_scope` is whether the reader runs inside a scope: outside there is no store
  unfoldable pub current : (in_scope : Bool) → Storage C → Option C
  current in_scope s = if in_scope then s.shared else none

  -- Inside a scope, a reader gets the value of the scope that was entered last, whichever scope the
  -- reader itself is in.
  pub current-enter_scope :
      (mine theirs : C) (s : Storage C)
      → (current true (enter_scope mine s) ≡ some mine)
        × (current true (enter_scope theirs (enter_scope mine s)) ≡ some theirs)
  unfolding current enter_scope
  current-enter_scope mine theirs s = (refl, refl)

-- JavaScript's `correlationId || v4()`
abbrev pub id_or : Option String → String → String
id_or none v4 = v4
id_or (some correlation_id) v4 = if str_eq correlation_id "" then v4 else correlation_id

abbrev pub use_correlation_id : Option String → String → Storage String → Storage String
unfolding enter_scope
use_correlation_id correlation_id v4 s = enter_scope (id_or correlation_id v4) s

-- the mixin of packages/pino-correlation/src/correlationMixin.ts
abbrev pub correlation_id_mixin : (in_scope : Bool) → Storage String → Option String
unfolding current
correlation_id_mixin in_scope s = current in_scope s

-- `tenantIdMixin` and `tenantCodeMixin` of packages/pino-multitenancy/src
abbrev pub tenant_id_mixin : Option Tenant → Option String
tenant_id_mixin none = none
tenant_id_mixin (some tenant) = tenant.id

abbrev pub code_or_none : Option String → String
code_or_none none = "NONE"
code_or_none (some code) = if str_eq code "" then "NONE" else code

abbrev pub tenant_code_mixin : Option Tenant → String
tenant_code_mixin none = "NONE"
tenant_code_mixin (some tenant) = code_or_none tenant.code
