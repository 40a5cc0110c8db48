-- ===== src/KnexFilters/Names.antt =====
-- The names of tables in packages/knex-filters/src: `splitTableAndAlias` of queryBuilder.ts and
-- `decompose` of dbSchema/mssql.ts and dbSchema/pg.ts. A text is its UTF-16 code units.
use rocket_toolkit.Prelude.{
  ℕ, zero, suc, ◌≡◌, refl, Bool, true, false, not, ◌&&◌, ◌||◌, Option, none, some, List, [], ◌∷◌,
  map, Bool-cases, inl, inr, ltb, arith, ◌==◌, if◌then◌else◌,
}

abbrev pub Text : Type 0
Text = List ℕ

-- null is none
abbrev pub Name : Type 0
Name = Option Text

abbrev pub text_eq : Text → Text → Bool
text_eq [] [] = true
text_eq [] (d ∷ ds) = false
text_eq (c ∷ cs) [] = false
text_eq (c ∷ cs) (d ∷ ds) = (c == d) && text_eq cs ds

pub text_eq-eq : (s t : Text) → text_eq s t ≡ true → s ≡ t
text_eq-eq [] [] h = refl
text_eq-eq [] (d ∷ ds) h = absurd (cc)
text_eq-eq (c ∷ cs) [] h = absurd (cc)
text_eq-eq (c ∷ cs) (d ∷ ds) h = elim (Bool-cases (c == d)) [
  | inl same ↦
      λ k. (let units : c ≡ d = ground arith in units k) ∷ text_eq-eq cs ds (rw same at h) k
  | inr other ↦ let q : false ≡ true = rw other at h in absurd (cc)
]

pub text_eq_refl : (s : Text) → text_eq s s ≡ true
text_eq_refl [] = refl
text_eq_refl (c ∷ cs) = let same : (c == c) ≡ true = ground arith in rw same (text_eq_refl cs)

-- a text in which a unit does not occur
abbrev pub HasNo : ℕ → Text → Type 0
HasNo u [] = Unit
HasNo u (c ∷ cs) = ((c == u) ≡ false) × HasNo u cs

-- what `trim` takes away
abbrev pub is_space : ℕ → Bool
is_space c =
    (not (ltb c 9) && ltb c 14)
    || (c == 32)
    || (c == 160)
    || (c == 0x1680)
    || (not (ltb c 0x2000) && ltb c 0x200b)
    || (c == 0x2028)
    || (c == 0x2029)
    || (c == 0x202f)
    || (c == 0x205f)
    || (c == 0x3000)
    || (c == 0xfeff)

abbrev pub trim_start : Text → Text
trim_start [] = []
trim_start (c ∷ cs) = if is_space c then trim_start cs else c ∷ cs

abbrev pub trim_end : Text → Text
trim_end [] = []
trim_end (c ∷ cs) = elim (trim_end cs) [
  | [] ↦ if is_space c then [] else c ∷ []
  | d ∷ ds ↦ c ∷ d ∷ ds
]

abbrev pub trim : Text → Text
trim t = trim_end (trim_start t)

-- `replace` of every unit of a class by nothing
abbrev pub remove_all : (ℕ → Bool) → Text → Text
remove_all p [] = []
remove_all p (c ∷ cs) = if p c then remove_all p cs else c ∷ remove_all p cs

-- `replace` of a string, which takes away the first unit only
abbrev pub remove_first : ℕ → Text → Text
remove_first u [] = []
remove_first u (c ∷ cs) = if c == u then cs else c ∷ remove_first u cs

-- `split` at one unit: the part before the first one, and the parts behind it.
abbrev pub split_parts : ℕ → Text → Text × List Text
split_parts u [] = ([], [])
split_parts u (c ∷ cs) =
    let (part, parts) = split_parts u cs in if c == u then ([], part ∷ parts) else (c ∷ part, parts)

abbrev pub split : ℕ → Text → List Text
split u t = let (part, parts) = split_parts u t in part ∷ parts

-- does the text begin with a match of `/ as /i`?
abbrev pub starts_with_as : Text → Bool
starts_with_as (s ∷ a ∷ b ∷ t ∷ cs) =
    (s == 32) && ((a == 65) || (a == 97)) && ((b == 83) || (b == 115)) && (t == 32)
starts_with_as _ = false

-- `split` at every match of `/ as /i`; `skip` units of a match are still to be passed over.
abbrev pub split_as_parts : ℕ → Text → Text × List Text
split_as_parts skip [] = ([], [])
split_as_parts (suc skip) (c ∷ cs) = split_as_parts skip cs
split_as_parts zero (c ∷ cs) =
    let (skipped, skipped_parts) = split_as_parts 3 cs in
    let (part, parts) = split_as_parts 0 cs in
    if starts_with_as (c ∷ cs) then ([], skipped ∷ skipped_parts) else (c ∷ part, parts)

abbrev pub is_bracket : ℕ → Bool
is_bracket c = (c == 91) || (c == 93)

abbrev pub clean : Text → Text
clean t = remove_all is_bracket (trim t)

-- The first two elements, which are all that the callers read; a missing one is undefined.
abbrev pub two_of : Text × List Text → Name × Name
two_of (table, []) = (some (clean table), none)
two_of (table, alias ∷ more) = (some (clean table), some (clean alias))

-- none is a table that is not a string
unfoldable pub split_table_and_alias : Option Text → Name × Name
split_table_and_alias none = (none, none)
split_table_and_alias (some table) = two_of (split_as_parts 0 table)

-- `decompose`, on the name and how each component is cleaned: an empty or missing name has none, and
-- components after the third are dropped.
abbrev pub decomposed : List Text → Name × Name × Name
decomposed [] = (none, none, none)
decomposed (table ∷ []) = (none, none, some table)
decomposed (schema ∷ table ∷ []) = (none, some schema, some table)
decomposed (db ∷ schema ∷ table ∷ more) = (some db, some schema, some table)

abbrev pub decompose : (Text → Text) → Name → Name × Name × Name
decompose component none = (none, none, none)
decompose component (some []) = (none, none, none)
decompose component (some (c ∷ cs)) = decomposed (map component (split 46 (c ∷ cs)))

abbrev pub mssql_component : Text → Text
mssql_component t = remove_first 93 (remove_first 91 (trim t))

-- `to_lower_case` is JavaScript's, on all of Unicode
abbrev pub pg_component : (Text → Text) → Text → Text
pg_component to_lower_case t = to_lower_case (remove_all (λ c. c == 34) (trim t))
