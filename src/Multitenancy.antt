-- ===== src/Multitenancy.antt =====
-- packages/multitenancy-core/src: tenants and their configuration. `J` is a configuration value of
-- JavaScript, and the libraries that read and merge such values are parameters. The maps of the
-- environment are arguments: what `_loadFromEnv` made of it, within the debounce.
pub mod Environment
pub mod Merged
pub mod Scopes
use Prim.Native.String.{◌++◌ as concat}
use rocket_toolkit.Prelude.{
  ℕ, String, Bool, true, false, not, ◌&&◌, Option, none, some, List, [], ◌∷◌, map, str_eq,
  if◌then◌else◌,
}
use rocket_toolkit.ProcessManager.Effect.{Completion, normal, abrupt, error}

-- What is read of a configuration value: `undefined` is the value of a missing property.
pub record Values (J : Type 0) : Type 0 where
  pub undefined : J
  -- ''
  pub empty_text : J
  pub is_object : J → Bool
  pub truthy : J → Bool
  -- `objectPath.get`
  pub get : J → String → J
  pub deepmerge : J → J → J
  -- the value of a property, when it is a string
  pub text_field : J → String → Option String
  -- `{ ...section, code }`
  pub with_code : J → String → J

pub record Tenant : Type 0 where
  pub id : Option String
  pub name : Option String
  pub code : Option String
  pub enabled : Bool

module _ {J : Type 0} (v : Values J) (to_lower_case : String → String) where
  abbrev pub find : {A : Type 0} → String → List (String × A) → Option A
  find key [] = none
  find key ((k, a) ∷ entries) = if str_eq k key then some a else find key entries

  -- an assignment to a property: the value is replaced where the key stands
  abbrev pub assign : {A : Type 0} → String → A → List (String × A) → List (String × A)
  assign key a [] = (key, a) ∷ []
  assign key a ((k, b) ∷ entries) =
      if str_eq k key then (k, a) ∷ entries else (k, b) ∷ assign key a entries

  abbrev pub add_tenant : String → J → Option String → List (String × J) → List (String × J)
  add_tenant tenant_code section none tenant_map = tenant_map
  add_tenant tenant_code section (some tenant_id) tenant_map =
      if str_eq tenant_id ""
      then tenant_map
      else assign (to_lower_case tenant_id) (v.with_code section tenant_code) tenant_map

  -- the loop of `_getTenants`, over the entries of the map by code
  unfoldable pub get_tenants : List (String × J) → List (String × J) → List (String × J)
  get_tenants tenant_map [] = tenant_map
  get_tenants tenant_map ((tenant_code, section) ∷ entries) =
      get_tenants (add_tenant tenant_code section (v.text_field section "tenantId") tenant_map)
        entries

  abbrev pub key_or : Option String → String
  key_or none = ""
  key_or (some key) = key

  -- both values are objects and are merged, or the first truthy one is taken
  abbrev pub merged : J → J → J
  merged default_value tenant_value =
      if v.is_object default_value && v.is_object tenant_value
      then v.deepmerge default_value tenant_value
      else if v.truthy tenant_value
      then tenant_value
      else default_value

  abbrev pub of_section : Option J → String → Option String → Option J → Completion J
  of_section defaults tenant_id key none =
      abrupt (error (concat "Configuration not found for tenant '" (concat tenant_id "'")))
  of_section none tenant_id key (some section) =
      normal (merged v.empty_text (v.get section (key_or key)))
  of_section (some defaults) tenant_id key (some section) =
      normal (merged (v.get defaults (key_or key)) (v.get section (key_or key)))

  -- `getValue`
  unfoldable pub get_value :
      Bool → Option J → List (String × J) → String → Option String → Completion J
  get_value is_multi_tenant defaults tenants tenant_id key =
      if is_multi_tenant
      then of_section defaults tenant_id key (find (to_lower_case tenant_id) tenants)
      else normal v.undefined

  abbrev pub of_tenant : Option J → String × J → J
  of_tenant none (tid, section) = if v.truthy section then section else v.undefined
  of_tenant (some defaults) (tid, section) =
      if v.truthy defaults && v.is_object defaults && v.is_object section
      then v.deepmerge defaults section
      else if v.truthy section
      then section
      else defaults

  -- `getAll` of tenantConfiguration.ts
  unfoldable pub get_all : Bool → Option J → List (String × J) → List J
  get_all is_multi_tenant defaults tenants =
      if is_multi_tenant then map (of_tenant defaults) tenants else []

  abbrev pub is_disabled : Option String → Bool
  is_disabled none = false
  is_disabled (some enabled) = str_eq enabled "false"

  abbrev pub code_or_undefined : Option String → String
  code_or_undefined none = "undefined"
  code_or_undefined (some code) = code

  -- `is_nullish` is whether the value has no properties, so that reading one throws
  abbrev pub tenant_of : (J → Bool) → String → Completion J → Completion (Option Tenant)
  tenant_of is_nullish tenant_id (abrupt e) = abrupt e
  tenant_of is_nullish tenant_id (normal section) =
      if is_nullish section
      then abrupt (error "Cannot read properties of undefined (reading 'enabled')")
      else if is_disabled (v.text_field section "enabled")
      then abrupt (
          error (
            concat "Tenant '"
              (concat (code_or_undefined (v.text_field section "code")) "' is disabled")))
      else normal (
          some (record {
            id = some tenant_id;
            name = v.text_field section "name";
            code = v.text_field section "code";
            enabled = true;
          }))

  -- `getTenantFromId`
  unfoldable pub get_tenant_from_id :
      (J → Bool) → Bool → Option J → List (String × J) → String → Completion (Option Tenant)
  unfolding get_value
  get_tenant_from_id is_nullish is_multi_tenant defaults tenants tenant_id =
      if str_eq tenant_id ""
      then normal none
      else tenant_of is_nullish tenant_id
          (get_value is_multi_tenant defaults tenants tenant_id none)

  abbrev pub tenants_of : List J → List Tenant
  tenants_of [] = []
  tenants_of (section ∷ sections) =
      let rest = tenants_of sections in
      if is_disabled (v.text_field section "enabled")
      then rest
      else (record {
        id = v.text_field section "tenantId";
        name = v.text_field section "name";
        code = v.text_field section "code";
        enabled = true;
      }
          ∷ rest)

  -- `getAll` of tenantService.ts
  unfoldable pub get_all_tenants : Bool → Option J → List (String × J) → List Tenant
  unfolding get_all
  get_all_tenants is_multi_tenant defaults tenants =
      tenants_of (get_all is_multi_tenant defaults tenants)
