-- ===== src/PinoApollo/Secured.antt =====
-- What an answer shows of an error, and what the logger gets.
use rocket_toolkit.Prelude.{
  String, ◌≡◌, ◌⊎◌, inl, inr, refl, ap, ◌∙◌, Bool, true, false, Bool-cases, Option, none, some,
  List, [], ◌∷◌, map, if◌then◌else◌,
}
use rocket_toolkit.KnexFilters.Names.{Text}
use rocket_toolkit.PinoApollo.{Request, should_skip_logging}
use rocket_toolkit.PinoApollo.Plugin.{
  GqlError, Entry, is_business, log_request_error, enrich_error, operation_of, did_encounter_errors,
  execution_prefix,
}

-- what the answer shows beside the extensions
abbrev pub visible : GqlError → String × Option String
visible e = (e.message, e.stack)

-- both are of the business, with the same message, or neither is
abbrev pub AreAlike : GqlError → GqlError → Type 0
AreAlike d e =
    ((is_business d.code ≡ true) × (is_business e.code ≡ true) × (d.message ≡ e.message))
    ⊎ ((is_business d.code ≡ false) × (is_business e.code ≡ false))

abbrev pub AllAlike : List GqlError → List GqlError → Type 0
AllAlike [] [] = Unit
AllAlike [] (e ∷ es) = ⊥
AllAlike (d ∷ ds) [] = ⊥
AllAlike (d ∷ ds) (e ∷ es) = AreAlike d e × AllAlike ds es

module _ (correlation_id : Option String) (shown : Text → String) (request : Request)
    (operation_name : Option Text) (of_context : Option Text) where
  shown_error : Bool → GqlError → String × Option String
  shown_error business e =
      visible
        (log_request_error true correlation_id shown
          (execution_prefix true correlation_id shown request operation_name)
          (operation_of true correlation_id shown request operation_name of_context) business e).0

  alike :
      (d e : GqlError)
      → AreAlike d e
      → shown_error (is_business d.code) d ≡ shown_error (is_business e.code) e
  unfolding shown_error log_request_error enrich_error
  alike d e (inl (b, c, same)) = rw (b, c) (ap (λ (m : String). (m, none)) same)
  alike d e (inr (b, c)) = rw (b, c) refl

  -- With secured messages, the errors of two answers show the same messages and stacks when they pair up
  -- so that each pair is of two business errors with one message, or of two other errors, whatever the
  -- messages and stacks of these. The extensions are not compared: they stay in the answer.
  pub did_encounter_errors-secured :
      (ds es : List GqlError)
      → AllAlike ds es
      → map visible
          (did_encounter_errors true correlation_id shown request operation_name of_context ds).0
        ≡ map visible
            (did_encounter_errors true correlation_id shown request operation_name of_context es).0
  unfolding did_encounter_errors shown_error
  did_encounter_errors-secured [] [] h = refl
  did_encounter_errors-secured [] (e ∷ es) h = absurd h
  did_encounter_errors-secured (d ∷ ds) [] h = absurd h
  did_encounter_errors-secured (d ∷ ds) (e ∷ es) (a, h) =
      ap
        (λ (v : String × Option String).
          v
          ∷ map visible
              (did_encounter_errors true correlation_id shown request operation_name of_context
                ds).0)
        (alike d e a)
      ∙ ap (λ (vs : List (String × Option String)). shown_error (is_business e.code) e ∷ vs)
          (did_encounter_errors-secured ds es h)

-- the errors that the entries carry
abbrev pub causes : List Entry → List GqlError
causes [] = []
causes (entry ∷ entries) = elim entry.cause [ none ↦ causes entries | some e ↦ e ∷ causes entries ]

module _ (secured : Bool) (correlation_id : Option String) (shown : Text → String)
    (request : Request) (operation_name : Option Text) (of_context : Option Text) where
  -- Whether messages are secured or not, the logger gets every error as it was before anything of it was
  -- taken away, in order, unless the operation is an introspection query: then it gets none.
  pub did_encounter_errors-causes :
      (errors : List GqlError)
      → causes
          (did_encounter_errors secured correlation_id shown request operation_name of_context
            errors).1
        ≡ (if should_skip_logging
              (some (operation_of secured correlation_id shown request operation_name of_context))
            then []
            else errors)
  unfolding did_encounter_errors log_request_error
  did_encounter_errors-causes [] = elim (Bool-cases skips) [ inl e ↦ rw e refl | inr e ↦ rw e refl ]
    where
      skips : Bool
      skips =
          should_skip_logging
            (some (operation_of secured correlation_id shown request operation_name of_context))
  did_encounter_errors-causes (e ∷ errors) = step (did_encounter_errors-causes errors)
    where
      skips : Bool
      skips =
          should_skip_logging
            (some (operation_of secured correlation_id shown request operation_name of_context))

      rest : List Entry
      rest =
          (did_encounter_errors secured correlation_id shown request operation_name of_context
            errors).1

      step :
          causes rest ≡ (if skips then [] else errors)
          → causes
              (did_encounter_errors secured correlation_id shown request operation_name of_context
                (e ∷ errors)).1
            ≡ (if skips then [] else e ∷ errors)
      step ih = elim (Bool-cases skips) [
        | inl s ↦ rw s (rw s at ih)
        | inr s ↦ rw s (ap (λ (es : List GqlError). e ∷ es) (rw s at ih))
      ]
