-- ===== src/Tests/Support.antt =====
-- Tenants, spans, logs and what a process needs around its work, at concrete values.
use rocket_toolkit.Prelude.{
  ℕ, ◌≡◌, refl, String, true, none, some, List, [], ◌∷◌, str_eq, if◌then◌else◌,
}
use rocket_toolkit.KnexFilters.Names.{Text}
use rocket_toolkit.Multitenancy.{Values}
use rocket_toolkit.Multitenancy.Environment.{load_from_env}
use rocket_toolkit.Multitenancy.Environment.RoundTrip.{
  nothing, setting, foreign, load_from_env-Listed,
}
use rocket_toolkit.Hosting.Shutdown.{
  trigger, failed, timed_out, happen_all, running, happen_all-calls,
}
use rocket_toolkit.Hosting.KeyPerFile.{loaded, removed, watch, last_event, watch_lem}

-- a configuration value is a text, and every one is an object
abbrev values : Values String
values = record {
  undefined = "";
  empty_text = "";
  is_object = λ j. true;
  truthy = λ j. true;
  get = λ j path. if str_eq path "" then j else "";
  deepmerge = λ a b. b;
  text_field = λ j name. some j;
  with_code = λ j code. j;
}

abbrev spans : List ℕ
spans = 1 ∷ []

happen_all-calls_example :
    (happen_all running (trigger "SIGINT" ∷ trigger "SIGTERM" ∷ failed ∷ timed_out ∷ [])).calls
    ≡ "SIGINT" ∷ []
happen_all-calls_example =
    happen_all-calls (trigger "SIGINT" ∷ trigger "SIGTERM" ∷ failed ∷ timed_out ∷ [])

watch_lem_example :
    watch
      (λ path. path)
      (λ k. none)
      (loaded "KEY" "1" ∷ loaded "KEY" "2" ∷ removed "KEY" ∷ [])
      "KEY"
    ≡ some "undefined"
unfolding last_event
watch_lem_example =
    watch_lem (λ path. path) (λ k. none) (loaded "KEY" "1" ∷ loaded "KEY" "2" ∷ removed "KEY" ∷ [])
      "KEY"

-- with the prefix "m": "ma__b", and "x", which is another's
abbrev environment : List (Text × ℕ)
environment = (109 ∷ 97 ∷ 95 ∷ 95 ∷ 98 ∷ [], 5) ∷ (120 ∷ [], 6) ∷ []

abbrev prefix_m : Text
prefix_m = 109 ∷ []

abbrev path_ab : List Text
path_ab = (97 ∷ []) ∷ (98 ∷ []) ∷ []

-- an object is the settings that were assigned
abbrev set_path : List (List Text × ℕ) → List Text → ℕ → List (List Text × ℕ)
set_path obj path value = (path, value) ∷ obj

load_from_env-Listed_example :
    load_from_env set_path [] (λ obj. obj) prefix_m environment ≡ (path_ab, 5) ∷ []
load_from_env-Listed_example =
    load_from_env-Listed set_path [] (λ obj. obj) prefix_m
      (setting 97 [] ((98 ∷ []) ∷ []) 5 (refl, tt) ((refl, tt), tt)
        (foreign (120 ∷ []) 6 refl nothing))
