-- ===== src/PinoApollo.antt =====
-- packages/pino-apollo/src/plugin.ts. A text is its UTF-16 code units. Here is the name that
-- an operation is logged under; Plugin has the rest.
pub mod OperationName
pub mod Plugin
pub mod Secured
use rocket_toolkit.Prelude.{
  ℕ, zero, suc, Bool, true, false, not, ◌&&◌, ◌||◌, Option, none, some, List, [], ◌∷◌, ◌++◌, ltb,
  ◌==◌, if◌then◌else◌,
}
use rocket_toolkit.KnexFilters.Names.{Text, text_eq, is_space, trim_start}

abbrev pub is_word : ℕ → Bool
is_word c =
    (not (ltb c 48) && ltb c 58)
    || (not (ltb c 65) && ltb c 91)
    || (c == 95)
    || (not (ltb c 97) && ltb c 123)

-- the `[a-zA-Z0-9_]+` at the head of a text, empty where it does not match
abbrev pub word_prefix : Text → Text
word_prefix [] = []
word_prefix (c ∷ cs) = if is_word c then c ∷ word_prefix cs else []

abbrev pub some_word : Text → Option Text
some_word [] = none
some_word (c ∷ cs) = some (c ∷ cs)

-- `\s+` and the word behind it
abbrev pub spaced_word : Text → Option Text
spaced_word [] = none
spaced_word (c ∷ cs) = if is_space c then some_word (word_prefix (trim_start cs)) else none

-- what is behind a keyword
abbrev pub strip_prefix : Text → Text → Option Text
strip_prefix [] text = some text
strip_prefix (k ∷ ks) [] = none
strip_prefix (k ∷ ks) (c ∷ cs) = if c == k then strip_prefix ks cs else none

abbrev pub mutation : Text
mutation = 109 ∷ 117 ∷ 116 ∷ 97 ∷ 116 ∷ 105 ∷ 111 ∷ 110 ∷ []

abbrev pub query : Text
query = 113 ∷ 117 ∷ 101 ∷ 114 ∷ 121 ∷ []

abbrev pub subscription : Text
subscription = 115 ∷ 117 ∷ 98 ∷ 115 ∷ 99 ∷ 114 ∷ 105 ∷ 112 ∷ 116 ∷ 105 ∷ 111 ∷ 110 ∷ []

abbrev pub or_try : {A : Type 0} → Option A → Option A → Option A
or_try none second = second
or_try (some a) second = some a

abbrev pub behind : Option Text → Option Text
behind none = none
behind (some text) = spaced_word text

-- the first pattern at the head of a text
abbrev pub named_here : Text → Option Text
named_here text =
    or_try (behind (strip_prefix mutation text))
      (or_try (behind (strip_prefix query text)) (behind (strip_prefix subscription text)))

-- `match` finds the first place where the pattern matches
unfoldable pub named_match : Text → Option Text
named_match [] = none
named_match (c ∷ cs) = or_try (named_here (c ∷ cs)) (named_match cs)

-- the second pattern: `{`, spaces and a word
abbrev pub field_here : ℕ → Text → Option Text
field_here c cs = if c == 123 then some_word (word_prefix (trim_start cs)) else none

unfoldable pub field_match : Text → Option Text
field_match [] = none
field_match (c ∷ cs) = or_try (field_here c cs) (field_match cs)

abbrev pub unidentified : Text
unidentified =
    117 ∷ 110 ∷ 105 ∷ 100 ∷ 101 ∷ 110 ∷ 116 ∷ 105 ∷ 102 ∷ 105 ∷ 101 ∷ 100 ∷ 79 ∷ 112 ∷ 101 ∷ 114
    ∷ 97 ∷ 116 ∷ 105 ∷ 111 ∷ 110 ∷ []

pub record Request : Type 0 where
  pub operation_name : Option Text
  pub query_text : Option Text

-- a name that is there and not empty
abbrev pub truthy : Option Text → Option Text
truthy none = none
truthy (some name) = some_word name

abbrev pub name_or : Option Text → Text → Text
name_or none default = default
name_or (some name) default = name

abbrev pub from_query : Option Text → Option Text
from_query none = none
from_query (some text) = or_try (named_match text) (field_match text)

unfoldable pub get_operation_name : Request → Option Text → Text
unfolding named_match field_match
get_operation_name request operation_name =
    name_or
      (or_try (truthy operation_name)
        (or_try (truthy request.operation_name) (from_query request.query_text)))
      unidentified

abbrev pub introspection_query : Text
introspection_query =
    73 ∷ 110 ∷ 116 ∷ 114 ∷ 111 ∷ 115 ∷ 112 ∷ 101 ∷ 99 ∷ 116 ∷ 105 ∷ 111 ∷ 110 ∷ 81 ∷ 117 ∷ 101 ∷ 114
    ∷ 121 ∷ []

abbrev pub should_skip_logging : Option Text → Bool
should_skip_logging none = false
should_skip_logging (some name) = text_eq name introspection_query
