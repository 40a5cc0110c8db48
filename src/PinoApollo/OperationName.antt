-- ===== src/PinoApollo/OperationName.antt =====
-- The name that an operation is logged under.
use rocket_toolkit.Prelude.{ℕ, ◌≡◌, refl, ap, ◌∙◌, true, false, none, some, [], ◌∷◌, ◌++◌, arith}
use rocket_toolkit.KnexFilters.Names.{Text, is_space, trim_start}
use rocket_toolkit.PinoApollo.{
  is_word, word_prefix, some_word, spaced_word, mutation, query, subscription, named_here,
  named_match, field_match, or_try, name_or, unidentified, get_operation_name,
}

-- a name as GraphQL has it: not empty, and of word units
abbrev pub AllWord : Text → Type 0
AllWord [] = Unit
AllWord (c ∷ cs) = (is_word c ≡ true) × AllWord cs

abbrev pub AllSpace : Text → Type 0
AllSpace [] = Unit
AllSpace (c ∷ cs) = (is_space c ≡ true) × AllSpace cs

-- a text at whose head no word goes on
abbrev pub EndsWord : Text → Type 0
EndsWord [] = Unit
EndsWord (c ∷ cs) = is_word c ≡ false

word_prefix-append :
    (name rest : Text) → AllWord name → EndsWord rest → word_prefix (name ++ rest) ≡ name
word_prefix-append [] [] h e = refl
word_prefix-append [] (c ∷ cs) h e = rw e refl
word_prefix-append (c ∷ name) rest (w, h) e =
    rw w (ap (λ (t : Text). c ∷ t) (word_prefix-append name rest h e))

space-not_word : (c : ℕ) → is_word c ≡ true → is_space c ≡ false
space-not_word c w = ground arith

trim_start-append :
    (spaces : Text) (c : ℕ) (cs : Text)
    → AllSpace spaces
    → is_word c ≡ true
    → trim_start (spaces ++ c ∷ cs) ≡ c ∷ cs
trim_start-append [] c cs h w = rw (space-not_word c w) refl
trim_start-append (s ∷ spaces) c cs (e, h) w = rw e (trim_start-append spaces c cs h w)

spaced_word-append :
    (s : ℕ) (spaces : Text) (c : ℕ) (name rest : Text)
    → is_space s ≡ true
    → AllSpace spaces
    → AllWord (c ∷ name)
    → EndsWord rest
    → spaced_word (s ∷ spaces ++ (c ∷ name ++ rest)) ≡ some (c ∷ name)
spaced_word-append s spaces c name rest e h (w, ws) ends = rw e (
    ap (λ (t : Text). some_word (word_prefix t)) (trim_start-append spaces c (name ++ rest) h w)
    ∙ ap some_word (word_prefix-append (c ∷ name) rest (w, ws) ends))

found_here :
    (q : ℕ) (qs name : Text)
    → named_here (q ∷ qs) ≡ some name
    → get_operation_name (record { operation_name = none; query_text = some (q ∷ qs) }) none ≡ name
unfolding get_operation_name named_match
found_here q qs name e =
    ap (λ o. name_or (or_try (or_try o (named_match qs)) (field_match (q ∷ qs))) unidentified) e

module _ (s : ℕ) (spaces : Text) (c : ℕ) (name rest : Text) (e : is_space s ≡ true)
    (h : AllSpace spaces) (w : AllWord (c ∷ name)) (ends : EndsWord rest) where
  -- what follows the keyword
  abbrev pub tail : Text
  tail = s ∷ spaces ++ (c ∷ name ++ rest)

  named : named_here (query ++ tail) ≡ some (c ∷ name)
  named = ap (λ o. or_try o none) (spaced_word-append s spaces c name rest e h w ends)

  named_mutation : named_here (mutation ++ tail) ≡ some (c ∷ name)
  named_mutation = ap (λ o. or_try o none) (spaced_word-append s spaces c name rest e h w ends)

  named_subscription : named_here (subscription ++ tail) ≡ some (c ∷ name)
  named_subscription = spaced_word-append s spaces c name rest e h w ends

  -- For a request with no operation name given, whose query is a keyword, at least one space, a name of
  -- word units, and a rest that does not go on with one, the name is found: whichever of the three
  -- keywords it is and however many spaces there are.
  pub get_operation_name-keyword :
      (get_operation_name (record { operation_name = none; query_text = some (query ++ tail) }) none
        ≡ c ∷ name)
      × (get_operation_name
            (record { operation_name = none; query_text = some (mutation ++ tail) })
            none
          ≡ c ∷ name)
      × (get_operation_name
            (record { operation_name = none; query_text = some (subscription ++ tail) })
            none
          ≡ c ∷ name)
  get_operation_name-keyword = (
    found_here _ _ (c ∷ name) named,
    found_here _ _ (c ∷ name) named_mutation,
    found_here _ _ (c ∷ name) named_subscription,
  )
