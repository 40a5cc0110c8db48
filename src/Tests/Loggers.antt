-- ===== src/Tests/Loggers.antt =====
-- The two plugins for Apollo Server, on concrete queries and errors.
use rocket_toolkit.Prelude.{
  ℕ, String, ◌≡◌, refl, inl, inr, true, none, some, List, [], ◌∷◌, map, length,
}
use rocket_toolkit.ProcessManager.Effect.Run.{execute, returned}
use rocket_toolkit.PinoApollo.{Request}
use rocket_toolkit.PinoApollo.Plugin
use rocket_toolkit.PinoApollo.Plugin.{GqlError}
use rocket_toolkit.PinoApollo.Secured.{visible, did_encounter_errors-secured}
use rocket_toolkit.ApolloLogger.{Context}
use rocket_toolkit.ApolloLogger.Plugin as Hooks
use rocket_toolkit.ApolloLogger.Plugin.{
  did_encounter_errors-forgets, did_encounter_errors-introspection, without_logs,
}

abbrev me : Request
me = record { operation_name = some (109 ∷ 101 ∷ []); query_text = none }

abbrev refused : GqlError
refused = record {
  message = "no credit";
  stack = some "at pay";
  code = some "BUSINESS_ERROR";
  extensions = none;
}

abbrev password : GqlError
password = record {
  message = "login failed for sa";
  stack = some "at connect";
  code = none;
  extensions = some "server";
}

abbrev overflow : GqlError
overflow = record { message = "overflow"; stack = none; code = some "INTERNAL"; extensions = none }

did_encounter_errors-secured_example :
    map visible
      (Plugin.did_encounter_errors true
        (some "c1")
        (λ t. "me")
        me
        none
        none
        (refused ∷ password ∷ [])).0
    ≡ map visible
        (Plugin.did_encounter_errors true
          (some "c1")
          (λ t. "me")
          me
          none
          none
          (refused ∷ overflow ∷ [])).0
did_encounter_errors-secured_example =
    did_encounter_errors-secured (some "c1") (λ t. "me") me none none (refused ∷ password ∷ [])
      (refused ∷ overflow ∷ []) (inl (refl, refl, refl), (inr (refl, refl), tt))

abbrev started : Context String ℕ
started = record { request_id = "r1"; logs = []; outside = 0 }

did_encounter_errors-forgets_example :
    (messages : List String) × (length messages ≡ 1)
    × (execute
          (Hooks.did_encounter_errors
            (λ n. "id")
            (λ n. n)
            none
            (λ e. "")
            none
            "getOrders"
            0
            (some "getOrders")
            ("boom" ∷ []))
          started
        ≡ (returned messages, started))
did_encounter_errors-forgets_example =
    did_encounter_errors-forgets (λ n. "id") (λ n. n) none (λ e. "") none "getOrders" ("boom" ∷ [])
      0 (some "getOrders") started refl
