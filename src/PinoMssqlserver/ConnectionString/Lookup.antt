-- ===== src/PinoMssqlserver/ConnectionString/Lookup.antt =====
-- What is found under a key of a connection string that was read.
use rocket_toolkit.Prelude.{
  ◌≡◌, refl, sym, ap, ◌∙◌, Bool, true, false, Bool-cases, inl, inr, Option, none, some, List, [],
  ◌∷◌, if◌then◌else◌,
}
use rocket_toolkit.KnexFilters.Names.{Text, text_eq, text_eq-eq, text_eq_refl}
use rocket_toolkit.PinoMssqlserver.ConnectionString.{Entries, get, set, assign, parsed}
use rocket_toolkit.PinoMssqlserver.ConnectionString.RoundTrip.{
  IsPlain, AllPlain, printed_from, entries_of, parsed-printed,
}

-- `later`, or what was there before
abbrev or_before : Option Text → Option Text → Option Text
or_before none before = before
or_before (some later) before = some later

abbrev value_if : Bool → Text → Option Text
value_if true v = some v
value_if false v = none

-- the value of the last pair with a key
abbrev pub last_value : Text → List (Text × Text) → Option Text
last_value key [] = none
last_value key ((k, v) ∷ pairs) = or_before (last_value key pairs) (value_if (text_eq k key) v)

choose :
    (a b : Bool) (x y z r : Option Text)
    → (a ≡ true → b ≡ true → ⊥)
    → r ≡ (if b then x else z)
    → (if a then y else r) ≡ (if b then x else if a then y else z)
choose true true x y z r apart e = absurd (apart refl refl)
choose true false x y z r apart e = refl
choose false b x y z r apart e = e

differ : (key k k' : Text) → text_eq k' k ≡ false → text_eq k' key ≡ true → text_eq k key ≡ true → ⊥
differ key k k' other a b =
    let same = text_eq-eq k' key a ∙ sym (text_eq-eq k key b) in
    let found : text_eq k' k ≡ true = ap (λ t. text_eq t k) same ∙ text_eq_refl k in cc

get-set :
    (key k : Text) (v : Option Text) (obj : Entries)
    → get key (set k v obj) ≡ (if text_eq k key then v else get key obj)
get-set key k v [] = refl
get-set key k v ((k', v') ∷ obj) = elim (Bool-cases (text_eq k' k)) [
  | inl same ↦ rw same (
      ap (λ (t : Text). if text_eq t key then v else get key obj) (text_eq-eq k' k same)
      ∙ shadowed (text_eq-eq k' k same))
  | inr other ↦ rw other (
      choose (text_eq k' key) (text_eq k key) v v' (get key obj) (get key (set k v obj))
        (differ key k k' other) (get-set key k v obj))
]
  where
    both :
        (b : Bool)
        → (if b then v else get key obj) ≡ (if b then v else if b then v' else get key obj)
    both true = refl
    both false = refl

    shadowed :
        k' ≡ k
        → (if text_eq k key then v else get key obj)
          ≡ (if text_eq k key then v else if text_eq k' key then v' else get key obj)
    shadowed e =
        both (text_eq k key)
        ∙ ap (λ (t : Text). if text_eq k key then v else if text_eq t key then v' else get key obj)
            (sym e)

get-assign :
    (key : Text) (pairs : List (Text × Text)) (obj : Entries)
    → get key (assign obj (entries_of pairs)) ≡ or_before (last_value key pairs) (get key obj)
get-assign key [] obj = refl
get-assign key ((k, v) ∷ pairs) obj =
    get-assign key pairs (set k (some v) obj)
    ∙ ap (or_before (last_value key pairs)) (get-set key k (some v) obj)
    ∙ nested (last_value key pairs) (text_eq k key)
  where
    nested :
        (later : Option Text) (b : Bool)
        → or_before later (if b then some v else get key obj)
          ≡ or_before (or_before later (value_if b v)) (get key obj)
    nested none true = refl
    nested none false = refl
    nested (some later) b = refl

-- A connection string that is written as pairs `key=value` with semicolons between them, of keys and
-- values with no space, `=` or semicolon, is read as an object that has, under every key, the value of the
-- last pair with that key, and nothing where there is no such pair.
pub get-parsed :
    (k v : Text) (pairs : List (Text × Text))
    → IsPlain k
    → IsPlain v
    → AllPlain pairs
    → (key : Text) → get key (parsed (printed_from k v pairs)) ≡ last_value key ((k, v) ∷ pairs)
get-parsed k v pairs pk pv h key =
    ap (get key) (parsed-printed k v pairs pk pv h)
    ∙ get-assign key ((k, v) ∷ pairs) []
    ∙ settled (last_value key ((k, v) ∷ pairs))
  where
    settled : (o : Option Text) → or_before o none ≡ o
    settled none = refl
    settled (some later) = refl
