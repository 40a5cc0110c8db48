-- ===== src/Multitenancy/Merged.antt =====
-- `getValue` and `getAll` on one tenant.
use rocket_toolkit.Prelude.{◌≡◌, ap, ◌∙◌, String, true, none, some, List}
use rocket_toolkit.ProcessManager.Effect.{normal}
use rocket_toolkit.Multitenancy.{Values, find, of_section, of_tenant, get_value}

module _ {J : Type 0} (v : Values J) (to_lower_case : String → String)
    (get-whole : (j : J) → v.get j "" ≡ j) (defaults : J) (truthy : v.truthy defaults ≡ true) where
  -- When reading at the empty path gives the whole value and the defaults are truthy, `getValue` of a
  -- tenant that is there, with no key, gives what `getAll` gives for that tenant.
  pub get_value-of_tenant :
      (tenants : List (String × J)) (tenant_id : String) (section : J)
      → find v to_lower_case (to_lower_case tenant_id) tenants ≡ some section
      → get_value v to_lower_case true (some defaults) tenants tenant_id none
        ≡ normal (of_tenant v to_lower_case (some defaults) (tenant_id, section))
  unfolding get_value
  get_value-of_tenant tenants tenant_id section found =
      ap (of_section v to_lower_case (some defaults) tenant_id none) found
      ∙ rw (get-whole defaults, get-whole section, truthy)
