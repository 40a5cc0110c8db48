-- ===== src/Multitenancy/Environment.antt =====
-- `_loadFromEnv` and `_getTenants` of packages/multitenancy-core/src/tenantConfiguration.ts. A key of the
-- environment is its UTF-16 code units; `set_path` is `objectPath.set` and `camelize_keys` is that of
-- `humps`; `O` is an object of JavaScript.
pub mod RoundTrip
use rocket_toolkit.Prelude.{
  ℕ, zero, suc, ◌≡◌, refl, ap, ◌∙◌, Bool, true, false, Bool-cases, inl, inr, ◌&&◌, List, [], ◌∷◌,
  ◌++◌, ◌==◌, if◌then◌else◌, arith,
}
use rocket_toolkit.KnexFilters.Names.{Text}

-- what stands behind a prefix, `startsWith` and `substring`: nothing where the text does not begin with it
abbrev pub behind : Text → Text → List Text
behind [] text = text ∷ []
behind (c ∷ prefix) [] = []
behind (c ∷ prefix) (d ∷ text) = let rest = behind prefix text in if c == d then rest else []

-- the keys that are the prefix itself are left out
abbrev pub longer : List Text → List Text
longer [] = []
longer ([] ∷ more) = []
longer ((c ∷ cs) ∷ more) = (c ∷ cs) ∷ []

-- `split('__')`: the part before the first two underscores, and the parts behind them. `skip` says that
-- the second of them is to be passed over.
abbrev pub is_bar : Text → Bool
is_bar (a ∷ b ∷ text) = (a == 95) && (b == 95)
is_bar _ = false

abbrev pub split_bar_parts : Bool → Text → Text × List Text
split_bar_parts skip [] = ([], [])
split_bar_parts true (c ∷ text) = split_bar_parts false text
split_bar_parts false (c ∷ text) =
    let (skipped, skipped_parts) = split_bar_parts true text in
    let (part, parts) = split_bar_parts false text in
    if is_bar (c ∷ text) then ([], skipped ∷ skipped_parts) else (c ∷ part, parts)

abbrev pub path_of : Text → List Text
path_of text = let (part, parts) = split_bar_parts false text in part ∷ parts

module _ {V O : Type 0} (set_path : O → List Text → V → O) where
  abbrev pub set_if : List Text → V → O → O
  set_if [] value obj = obj
  set_if (tenant_part ∷ more) value obj = set_path obj (path_of tenant_part) value

  -- the loop over the variables of the environment
  unfoldable pub loaded : Text → List (Text × V) → O → O
  loaded prefix [] obj = obj
  loaded prefix ((key, value) ∷ env) obj =
      loaded prefix env (set_if (longer (behind prefix key)) value obj)

  unfoldable pub load_from_env : (empty : O) → (camelize_keys : O → O) → Text → List (Text × V) → O
  unfolding loaded
  load_from_env empty camelize_keys prefix env = camelize_keys (loaded prefix env empty)
