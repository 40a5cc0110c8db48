-- ===== src/MessageBus/Utf8/RoundTrip.antt =====
-- `fromUTF8Array` on what `toUTF8Array` writes.
use rocket_toolkit.Prelude.{
  ℕ, ◌+◌, ◌*◌, ◌/◌, ◌%◌, ◌≤◌, ◌<◌, ◌≡◌, refl, ap, ◌∙◌, ◌⊎◌, inl, inr, List, [], ◌∷◌, ◌++◌, true,
  false, Bool-cases, ltb, arith,
}
use rocket_toolkit.MessageBus.Utf8.{
  at, bytes_of, units_eaten, to_utf8_from, to_utf8_array, from_utf8_from, from_utf8_array,
  high_surrogate,
}

-- UTF-16 without a surrogate that stands alone.
pub data IsUtf16 : List ℕ → Type 0 where
  end : IsUtf16 []
  plain : (c : ℕ) (str : List ℕ) → c < 0xd800 → IsUtf16 str → IsUtf16 (c ∷ str)
  upper : (c : ℕ) (str : List ℕ) → 0xe000 ≤ c → c < 0x10000 → IsUtf16 str → IsUtf16 (c ∷ str)
  pair :
      (high low : ℕ) (str : List ℕ)
      → 0xd800 ≤ high
      → high < 0xdc00
      → 0xdc00 ≤ low
      → low < 0xe000
      → IsUtf16 str
      → IsUtf16 (high ∷ low ∷ str)

ltb-true : {a b : ℕ} → a < b → ltb a b ≡ true
ltb-true h = ground arith

ltb-false : {a b : ℕ} → b ≤ a → ltb a b ≡ false
ltb-false h = ground arith

below-cases : (a b : ℕ) → (a < b) ⊎ (b ≤ a)
below-cases a b = elim (Bool-cases (ltb a b)) [
  | inl below ↦ inl (ground arith)
  | inr above ↦ inr (ground arith)
]

module _ (c : ℕ) (rest : List ℕ) where
  bytes_of-one : c < 0x80 → bytes_of c rest ≡ c ∷ []
  bytes_of-one h = rw (ltb-true h)

  bytes_of-two : 0x80 ≤ c → c < 0x800 → bytes_of c rest ≡ (0xc0 + c / 64) ∷ (0x80 + c % 64) ∷ []
  bytes_of-two h k = rw (ltb-false h, ltb-true k)

  abbrev three_bytes : List ℕ
  three_bytes = (0xe0 + c / 4096) ∷ (0x80 + c / 64 % 64) ∷ (0x80 + c % 64) ∷ []

  bytes_of-three_low : 0x800 ≤ c → c < 0xd800 → bytes_of c rest ≡ three_bytes
  bytes_of-three_low h k =
      let a : 0x80 ≤ c = omega arith in rw (ltb-false a, ltb-false h, ltb-true k)

  bytes_of-three_high : 0xe000 ≤ c → bytes_of c rest ≡ three_bytes
  bytes_of-three_high h =
      let a : 0x80 ≤ c = omega arith in
      let b : 0x800 ≤ c = omega arith in
      let d : 0xd800 ≤ c = omega arith in rw (ltb-false a, ltb-false b, ltb-false d, ltb-false h)

  abbrev four_bytes : ℕ → List ℕ
  four_bytes code =
      (0xf0 + code / 262144)
      ∷ (0x80 + code / 4096 % 64)
      ∷ (0x80 + code / 64 % 64)
      ∷ (0x80 + code % 64)
      ∷ []

  bytes_of-four :
      0xd800 ≤ c
      → c < 0xe000
      → bytes_of c rest ≡ four_bytes (0x10000 + (c % 1024 * 1024 + at rest 0 % 1024))
  bytes_of-four h k =
      let a : 0x80 ≤ c = omega arith in
      let b : 0x800 ≤ c = omega arith in rw (ltb-false a, ltb-false b, ltb-false h, ltb-true k)

module _ (c : ℕ) where
  units_eaten-one : c < 0xd800 → units_eaten c ≡ 0
  units_eaten-one h = rw (ltb-true h)

  units_eaten-upper : 0xe000 ≤ c → units_eaten c ≡ 0
  units_eaten-upper h = let a : 0xd800 ≤ c = omega arith in rw (ltb-false a, ltb-false h)

  units_eaten-pair : 0xd800 ≤ c → c < 0xe000 → units_eaten c ≡ 1
  units_eaten-pair h k = rw (ltb-false h, ltb-true k)

module _ (v a b c : ℕ) (later : List ℕ) where
  read_one : v < 0x80 → from_utf8_from 0 (v ∷ later) ≡ v ∷ from_utf8_from 0 later
  unfolding from_utf8_from
  read_one h = rw (ltb-true h)

  read_two :
      0xc0 ≤ v
      → v < 0xe0
      → from_utf8_from 0 (v ∷ a ∷ later) ≡ (v % 32 * 64 + a % 64) ∷ from_utf8_from 0 later
  unfolding from_utf8_from
  read_two h k = let l : 0x80 ≤ v = omega arith in rw (ltb-false l, ltb-false h, ltb-true k)

  read_three :
      0xe0 ≤ v
      → v < 0xf0
      → from_utf8_from 0 (v ∷ a ∷ b ∷ later)
        ≡ (v % 16 * 4096 + a % 64 * 64 + b % 64) ∷ from_utf8_from 0 later
  unfolding from_utf8_from
  read_three h k =
      let l : 0x80 ≤ v = omega arith in
      let m : 0xc0 ≤ v = omega arith in rw (ltb-false l, ltb-false m, ltb-false h, ltb-true k)

  abbrev code_of : ℕ
  code_of = v % 8 * 262144 + a % 64 * 4096 + b % 64 * 64 + c % 64

  read_four :
      0xf0 ≤ v
      → from_utf8_from 0 (v ∷ a ∷ b ∷ c ∷ later)
        ≡ high_surrogate code_of ∷ (0xdc00 + code_of % 1024) ∷ from_utf8_from 0 later
  unfolding from_utf8_from
  read_four h =
      let l : 0x80 ≤ v = omega arith in
      let m : 0xc0 ≤ v = omega arith in
      let n : 0xe0 ≤ v = omega arith in rw (ltb-false l, ltb-false m, ltb-false n, ltb-false h)

two-eq : (c : ℕ) → c < 0x800 → (0xc0 + c / 64) % 32 * 64 + (0x80 + c % 64) % 64 ≡ c
two-eq c h = omega arith

three-eq :
    (c : ℕ)
    → c < 0x10000
    → (0xe0 + c / 4096) % 16 * 4096 + (0x80 + c / 64 % 64) % 64 * 64 + (0x80 + c % 64) % 64 ≡ c
three-eq c h = omega arith

four-eq :
    (c : ℕ)
    → c < 0x110000
    → (0xf0 + c / 262144) % 8 * 262144
        + (0x80 + c / 4096 % 64) % 64 * 4096
        + (0x80 + c / 64 % 64) % 64 * 64
        + (0x80 + c % 64) % 64
      ≡ c
four-eq c h = omega arith

module _ (high low : ℕ) where
  abbrev code : ℕ
  code = 0x10000 + (high % 1024 * 1024 + low % 1024)

  high-eq : 0xd800 ≤ high → high < 0xdc00 → high_surrogate code ≡ high
  high-eq h k = let a : 0x10000 ≤ code = omega arith in rw (ltb-false a) (omega arith)

  low-eq : 0xdc00 ≤ low → low < 0xe000 → 0xdc00 + code % 1024 ≡ low
  low-eq h k = omega arith

-- What is read back from the bytes of one unit, and what comes behind them.
step_plain :
    (c : ℕ) (before later : List ℕ)
    → c < 0x10000
    → (c < 0xd800) ⊎ (0xe000 ≤ c)
    → from_utf8_from 0 (bytes_of c before ++ later) ≡ c ∷ from_utf8_from 0 later
step_plain c before later h (inr k) = rw (bytes_of-three_high c before k) (
    read_three (0xe0 + c / 4096) (0x80 + c / 64 % 64) (0x80 + c % 64) 0 later (omega arith)
      (omega arith)
    ∙ ap (λ x. x ∷ from_utf8_from 0 later) (three-eq c h))
step_plain c before later h (inl k) = elim (below-cases c 0x80) [
  | inl small ↦ rw (bytes_of-one c before small) (read_one c 0 0 0 later small)
  | inr one ↦ elim (below-cases c 0x800) [
    | inl medium ↦ rw (bytes_of-two c before one medium) (
        read_two (0xc0 + c / 64) (0x80 + c % 64) 0 0 later (omega arith) (omega arith)
        ∙ ap (λ x. x ∷ from_utf8_from 0 later) (two-eq c medium))
    | inr two ↦ rw (bytes_of-three_low c before two k) (
        read_three (0xe0 + c / 4096) (0x80 + c / 64 % 64) (0x80 + c % 64) 0 later (omega arith)
          (omega arith)
        ∙ ap (λ x. x ∷ from_utf8_from 0 later) (three-eq c h))
  ]
]

step_pair :
    (high low : ℕ) (str later : List ℕ)
    → 0xd800 ≤ high
    → high < 0xdc00
    → 0xdc00 ≤ low
    → low < 0xe000
    → from_utf8_from 0 (bytes_of high (low ∷ str) ++ later) ≡ high ∷ low ∷ from_utf8_from 0 later
step_pair high low str later h k l m =
    let x = code high low in
    let e : code_of (0xf0 + x / 262144) (0x80 + x / 4096 % 64) (0x80 + x / 64 % 64) (0x80 + x % 64)
          later
        ≡ x =
      four-eq x (omega arith) in
    rw (bytes_of-four high (low ∷ str) h (omega arith)) (
      read_four (0xf0 + x / 262144) (0x80 + x / 4096 % 64) (0x80 + x / 64 % 64) (0x80 + x % 64)
        later (omega arith)
      ∙ rw (e, high-eq high low h k, low-eq high low l m))

-- Reading back the bytes of a string gives the string, when every surrogate of it stands in a pair.
pub from_utf8_array-to_utf8_array :
    (str : List ℕ) → IsUtf16 str → from_utf8_array (to_utf8_array str) ≡ str
unfolding to_utf8_from from_utf8_from
from_utf8_array-to_utf8_array _ end = refl
from_utf8_array-to_utf8_array _ (plain c str h rest) = rw (units_eaten-one c h) (
    step_plain c str (to_utf8_from 0 str) (omega arith) (inl h)
    ∙ ap (λ l. c ∷ l) (from_utf8_array-to_utf8_array str rest))
from_utf8_array-to_utf8_array _ (upper c str h k rest) = rw (units_eaten-upper c h) (
    step_plain c str (to_utf8_from 0 str) k (inr h)
    ∙ ap (λ l. c ∷ l) (from_utf8_array-to_utf8_array str rest))
from_utf8_array-to_utf8_array _ (pair high low str h k l m rest) =
    rw (units_eaten-pair high h (omega arith)) (
      step_pair high low str (to_utf8_from 0 str) h k l m
      ∙ ap (λ l. high ∷ low ∷ l) (from_utf8_array-to_utf8_array str rest))
