-- ===== src/Tracing/External.antt =====
-- `getExternalSpan` of packages/opentracing/src/tracingUtils.ts. `extract` is that of the tracer, on the
-- entries of an object.
use rocket_toolkit.Prelude.{
  ◌≡◌, refl, sym, ap, ◌∙◌, String, Bool, true, false, ◌||◌, Option, none, List, [], ◌∷◌, ◌++◌,
  append_assoc, append-nil, str_eq, if◌then◌else◌,
}

abbrev pub Entries : Type 0
Entries = List (String × String)

-- the headers of a request: none, a map, or an object
pub data Headers : Type 0 where
  missing : Headers
  header_map : Entries → Headers
  header_object : Entries → Headers

abbrev pub has_key : String → Entries → Bool
has_key key [] = false
has_key key ((k, v) ∷ entries) = str_eq k key || has_key key entries

-- `obj[key] = value`
abbrev pub set : String → String → Entries → Entries
set key value [] = (key, value) ∷ []
set key value ((k, v) ∷ entries) =
    let rest = set key value entries in if str_eq k key then (k, value) ∷ entries else (k, v) ∷ rest

-- `mapToObj`, from an object on
abbrev pub map_to_obj : Entries → Entries → Entries
map_to_obj obj [] = obj
map_to_obj obj ((key, value) ∷ input_map) = map_to_obj (set key value obj) input_map

module _ {S : Type 0} (extract : Entries → Option S) where
  unfoldable pub get_external_span : Headers → Option S
  get_external_span missing = none
  get_external_span (header_map m) = extract (map_to_obj [] m)
  get_external_span (header_object headers) = extract headers

-- a map has a key once
abbrev pub IsMap : Entries → Entries → Type 0
IsMap before [] = Unit
IsMap before ((k, v) ∷ entries) = (has_key k before ≡ false) × IsMap (before ++ (k, v) ∷ []) entries

set_new : (k v : String) (obj : Entries) → has_key k obj ≡ false → set k v obj ≡ obj ++ (k, v) ∷ []
set_new k v [] h = refl
set_new k v ((k', v') ∷ obj) h = cases (str_eq k' k) h (set_new k v obj)
  where
    cases :
        (b : Bool)
        → b || has_key k obj ≡ false
        → (has_key k obj ≡ false → set k v obj ≡ obj ++ (k, v) ∷ [])
        → (if b then (k', v) ∷ obj else (k', v') ∷ set k v obj) ≡ (k', v') ∷ (obj ++ (k, v) ∷ [])
    cases true h ih = cc
    cases false h ih = ap (λ rest. (k', v') ∷ rest) (ih h)

map_to_obj-IsMap :
    (before entries : Entries)
    → IsMap before entries
    → map_to_obj before entries ≡ before ++ entries
map_to_obj-IsMap before [] h = sym (append-nil before)
map_to_obj-IsMap before ((k, v) ∷ entries) (new, h) =
    ap (λ obj. map_to_obj obj entries) (set_new k v before new)
    ∙ map_to_obj-IsMap (before ++ (k, v) ∷ []) entries h
    ∙ append_assoc before ((k, v) ∷ []) entries

-- Headers in a map give the same span as an object with the same entries.
pub get_external_span-map :
    {S : Type 0} (extract : Entries → Option S) (m : Entries)
    → IsMap [] m
    → get_external_span extract (header_map m) ≡ get_external_span extract (header_object m)
unfolding get_external_span
get_external_span-map extract m h = ap extract (map_to_obj-IsMap [] m h)
