-- ===== src/Multitenancy/Environment/RoundTrip.antt =====
-- Reading the settings of tenants back from the names of the variables that hold them.
use rocket_toolkit.Prelude.{
  ℕ, ◌≡◌, refl, sym, ap, ◌∙◌, true, false, List, [], ◌∷◌, ◌++◌, append-nil, ◌==◌, arith,
}
use rocket_toolkit.KnexFilters.Names.{Text, HasNo}
use rocket_toolkit.Multitenancy.Environment.{
  behind, longer, is_bar, split_bar_parts, set_if, loaded, load_from_env,
}

is_bar_other : (c : ℕ) (text : Text) → (c == 95) ≡ false → is_bar (c ∷ text) ≡ false
is_bar_other c [] e = refl
is_bar_other c (d ∷ text) e = rw e refl

abbrev before : Text → Text × List Text → Text × List Text
before s (part, parts) = (s ++ part, parts)

split_bar-append :
    (s rest : Text)
    → HasNo 95 s
    → split_bar_parts false (s ++ rest) ≡ before s (split_bar_parts false rest)
split_bar-append [] rest h = refl
split_bar-append (c ∷ s) rest (e, h) =
    rw (is_bar_other c (s ++ rest) e)
      (ap (λ (part, parts). (c ∷ part, parts)) (split_bar-append s rest h))

-- `a__b__c`
abbrev pub joined : Text → List Text → Text
joined a [] = a
joined a (b ∷ more) = a ++ 95 ∷ 95 ∷ joined b more

abbrev pub AllNoBar : List Text → Type 0
AllNoBar [] = Unit
AllNoBar (a ∷ more) = HasNo 95 a × AllNoBar more

split_bar-joined :
    (a : Text) (more : List Text)
    → HasNo 95 a
    → AllNoBar more
    → split_bar_parts false (joined a more) ≡ (a, more)
split_bar-joined a [] h hs =
    ap (split_bar_parts false) (sym (append-nil a))
    ∙ split_bar-append a [] h
    ∙ ap (λ (s : Text). (s, [])) (append-nil a)
split_bar-joined a (b ∷ more) h (hb, hs) =
    split_bar-append a (95 ∷ 95 ∷ joined b more) h
    ∙ ap (λ (part, parts). (a ++ [], part ∷ parts)) (split_bar-joined b more hb hs)
    ∙ ap (λ (s : Text). (s, b ∷ more)) (append-nil a)

behind-prefix : (prefix text : Text) → behind prefix (prefix ++ text) ≡ text ∷ []
behind-prefix [] text = refl
behind-prefix (c ∷ prefix) text =
    let same : (c == c) ≡ true = ground arith in rw same (behind-prefix prefix text)

module _ {V : Type 0} (prefix : Text) where
  -- An environment with the settings that its variables hold: the path of a setting has no underscore,
  -- and its first part is not empty; other variables do not begin with the prefix.
  pub data Listed : List (Text × V) → List (List Text × V) → Type 0 where
    nothing : Listed [] []
    setting :
        {env : List (Text × V)} {settings : List (List Text × V)} (c : ℕ) (a : Text)
        (more : List Text) (value : V)
        → HasNo 95 (c ∷ a)
        → AllNoBar more
        → Listed env settings
        → Listed ((prefix ++ joined (c ∷ a) more, value) ∷ env) (((c ∷ a) ∷ more, value) ∷ settings)
    foreign :
        {env : List (Text × V)} {settings : List (List Text × V)} (key : Text) (value : V)
        → behind prefix key ≡ []
        → Listed env settings
        → Listed ((key, value) ∷ env) settings

module _ {V O : Type 0} (set_path : O → List Text → V → O) where
  abbrev pub set_all : List (List Text × V) → O → O
  set_all [] obj = obj
  set_all ((path, value) ∷ settings) obj = set_all settings (set_path obj path value)

  longer-joined :
      (c : ℕ) (a : Text) (more : List Text)
      → longer (joined (c ∷ a) more ∷ []) ≡ joined (c ∷ a) more ∷ []
  longer-joined c a [] = refl
  longer-joined c a (b ∷ more) = refl

  abbrev path_from : Text × List Text → List Text
  path_from (part, parts) = part ∷ parts

  set_if-setting :
      (prefix : Text) (c : ℕ) (a : Text) (more : List Text) (value : V) (obj : O)
      → HasNo 95 (c ∷ a)
      → AllNoBar more
      → set_if set_path (longer (behind prefix (prefix ++ joined (c ∷ a) more))) value obj
        ≡ set_path obj ((c ∷ a) ∷ more) value
  set_if-setting prefix c a more value obj h hs =
      ap (λ parts. set_if set_path (longer parts) value obj)
        (behind-prefix prefix (joined (c ∷ a) more))
      ∙ ap (λ parts. set_if set_path parts value obj) (longer-joined c a more)
      ∙ ap (λ parts. set_path obj (path_from parts) value) (split_bar-joined (c ∷ a) more h hs)

  loaded-Listed :
      (prefix : Text) {env : List (Text × V)} {settings : List (List Text × V)}
      → Listed prefix env settings
      → (obj : O) → loaded set_path prefix env obj ≡ set_all settings obj
  unfolding loaded
  loaded-Listed prefix nothing obj = refl
  loaded-Listed prefix (setting {env} c a more value h hs l) obj =
      ap (loaded set_path prefix env) (set_if-setting prefix c a more value obj h hs)
      ∙ loaded-Listed prefix l (set_path obj ((c ∷ a) ∷ more) value)
  loaded-Listed prefix (foreign {env} key value e l) obj =
      ap (λ parts. loaded set_path prefix env (set_if set_path (longer parts) value obj)) e
      ∙ loaded-Listed prefix l obj

  -- From an environment in which the names of some variables are the prefix and a path with two underscores
  -- between its parts, and the names of the others do not begin with the prefix, exactly the settings of
  -- the former are assigned, at their paths and in order.
  pub load_from_env-Listed :
      (empty : O) (camelize_keys : O → O) (prefix : Text) {env : List (Text × V)}
      {settings : List (List Text × V)}
      → Listed prefix env settings
      → load_from_env set_path empty camelize_keys prefix env
        ≡ camelize_keys (set_all settings empty)
  unfolding load_from_env
  load_from_env-Listed empty camelize_keys prefix l =
      ap camelize_keys (loaded-Listed prefix l empty)
