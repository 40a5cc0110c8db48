-- ===== src/PinoMssqlserver/ConnectionString/RoundTrip.antt =====
-- Reading a connection string that was written out of its pairs.
use rocket_toolkit.Prelude.{
  ℕ, ◌≡◌, refl, ap, ◌∙◌, true, false, Option, some, List, [], ◌∷◌, ◌++◌, map, ◌==◌, arith,
}
use rocket_toolkit.KnexFilters.Names.{Text, HasNo, split, remove_first}
use rocket_toolkit.PinoMssqlserver.ConnectionString.{
  Entries, pair_of, pair_of_parts, assign, parsed,
}

HasNo-append : (u : ℕ) (s t : Text) → HasNo u s → HasNo u t → HasNo u (s ++ t)
HasNo-append u [] t hs ht = ht
HasNo-append u (c ∷ s) t (h, hs) ht = (h, HasNo-append u s t hs ht)

same_unit : (u : ℕ) → (u == u) ≡ true
same_unit u = ground arith

split-none : (u : ℕ) (s : Text) → HasNo u s → split u s ≡ s ∷ []
split-none u [] h = refl
split-none u (c ∷ s) (e, h) = rw e (ap (λ (parts : List Text). joined c parts) (split-none u s h))
  where
    joined : ℕ → List Text → List Text
    joined c [] = []
    joined c (part ∷ parts) = (c ∷ part) ∷ parts

split-append : (u : ℕ) (s rest : Text) → HasNo u s → split u (s ++ u ∷ rest) ≡ s ∷ split u rest
split-append u [] rest h = rw (same_unit u) refl
split-append u (c ∷ s) rest (e, h) =
    rw e (ap (λ (parts : List Text). joined c parts) (split-append u s rest h))
  where
    joined : ℕ → List Text → List Text
    joined c [] = []
    joined c (part ∷ parts) = (c ∷ part) ∷ parts

remove_first-none : (u : ℕ) (s : Text) → HasNo u s → remove_first u s ≡ s
remove_first-none u [] h = refl
remove_first-none u (c ∷ s) (e, h) = rw e (ap (λ (t : Text). c ∷ t) (remove_first-none u s h))

-- What follows a second `=` in a pair is lost.
pub pair_of-truncated :
    (k v rest : Text) → HasNo 61 k → HasNo 61 v → pair_of (k ++ 61 ∷ (v ++ 61 ∷ rest)) ≡ (k, some v)
pair_of-truncated k v rest hk hv = ap pair_of_parts (
    split-append 61 k (v ++ 61 ∷ rest) hk
    ∙ ap (λ (p : List Text). k ∷ p) (split-append 61 v rest hv))

pair_of-pair : (k v : Text) → HasNo 61 k → HasNo 61 v → pair_of (k ++ 61 ∷ v) ≡ (k, some v)
pair_of-pair k v hk hv =
    ap pair_of_parts (split-append 61 k v hk ∙ ap (λ (p : List Text). k ∷ p) (split-none 61 v hv))

-- a key and a value with no space and none of the units that part them
abbrev pub IsPlain : Text → Type 0
IsPlain t = HasNo 61 t × HasNo 59 t × HasNo 32 t

abbrev pub AllPlain : List (Text × Text) → Type 0
AllPlain [] = Unit
AllPlain ((k, v) ∷ pairs) = IsPlain k × IsPlain v × AllPlain pairs

-- `k=v;k=v`
abbrev pub printed_from : Text → Text → List (Text × Text) → Text
printed_from k v [] = k ++ 61 ∷ v
printed_from k v ((k', v') ∷ pairs) = (k ++ 61 ∷ v) ++ 59 ∷ printed_from k' v' pairs

abbrev pub entries_of : List (Text × Text) → Entries
entries_of [] = []
entries_of ((k, v) ∷ pairs) = (k, some v) ∷ entries_of pairs

pair-HasNo :
    (u : ℕ) (k v : Text) → ((61 == u) ≡ false) → HasNo u k → HasNo u v → HasNo u (k ++ 61 ∷ v)
pair-HasNo u k v e hk hv = HasNo-append u k (61 ∷ v) hk (e, hv)

printed-HasNo :
    (k v : Text) (pairs : List (Text × Text))
    → IsPlain k
    → IsPlain v
    → AllPlain pairs
    → HasNo 32 (printed_from k v pairs)
printed-HasNo k v [] (_, _, hk) (_, _, hv) h = pair-HasNo 32 k v refl hk hv
printed-HasNo k v ((k', v') ∷ pairs) (_, _, hk) (_, _, hv) (pk, pv, h) =
    HasNo-append 32 (k ++ 61 ∷ v) (59 ∷ printed_from k' v' pairs) (pair-HasNo 32 k v refl hk hv)
      (refl, printed-HasNo k' v' pairs pk pv h)

split-printed :
    (k v : Text) (pairs : List (Text × Text))
    → IsPlain k
    → IsPlain v
    → AllPlain pairs
    → map pair_of (split 59 (printed_from k v pairs)) ≡ entries_of ((k, v) ∷ pairs)
split-printed k v [] (ek, sk, _) (ev, sv, _) h =
    ap (map pair_of) (split-none 59 (k ++ 61 ∷ v) (pair-HasNo 59 k v refl sk sv))
    ∙ ap (λ (p : Text × Option Text). p ∷ []) (pair_of-pair k v ek ev)
split-printed k v ((k', v') ∷ pairs) (ek, sk, _) (ev, sv, _) (pk, pv, h) =
    ap (map pair_of)
      (split-append 59 (k ++ 61 ∷ v) (printed_from k' v' pairs) (pair-HasNo 59 k v refl sk sv))
    ∙ ap (λ (p : Text × Option Text). p ∷ map pair_of (split 59 (printed_from k' v' pairs)))
        (pair_of-pair k v ek ev)
    ∙ ap (λ (ps : Entries). (k, some v) ∷ ps) (split-printed k' v' pairs pk pv h)

-- The object that such a text is read as: its pairs, assigned in order.
pub parsed-printed :
    (k v : Text) (pairs : List (Text × Text))
    → IsPlain k
    → IsPlain v
    → AllPlain pairs
    → parsed (printed_from k v pairs) ≡ assign [] (entries_of ((k, v) ∷ pairs))
unfolding parsed
parsed-printed k v pairs pk pv h =
    ap (λ t. assign [] (map pair_of (split 59 t)))
      (remove_first-none 32 (printed_from k v pairs) (printed-HasNo k v pairs pk pv h))
    ∙ ap (assign []) (split-printed k v pairs pk pv h)
