-- ===== src/MessageBus/Utf8.antt =====
-- `toUTF8Array` and `fromUTF8Array` of packages/message-bus/src/transport/rusi/index.ts. A string is
-- its UTF-16 code units. The operands of each `|` of the source have no bit in common, so it is a
-- sum; `>>` and `&` are quotient and remainder. A read past the end is NaN or undefined, which the
-- bit operations take as 0.
pub mod RoundTrip
use rocket_toolkit.Prelude.{
  ℕ, zero, suc, ◌+◌, ◌-◌, ◌*◌, ◌/◌, ◌%◌, Bool, not, ◌&&◌, List, [], ◌∷◌, ◌++◌, ltb, if◌then◌else◌,
}

-- the element at an index, read as a number
abbrev pub at : List ℕ → ℕ → ℕ
at [] i = 0
at (x ∷ xs) zero = x
at (x ∷ xs) (suc i) = at xs i

-- The bytes of the unit `charcode` before the units `rest`.
abbrev pub bytes_of : ℕ → List ℕ → List ℕ
bytes_of charcode rest =
    if ltb charcode 0x80
    then charcode ∷ []
    else if ltb charcode 0x800
    then (0xc0 + charcode / 64) ∷ (0x80 + charcode % 64) ∷ []
    else if ltb charcode 0xd800
    then three
    else if ltb charcode 0xe000
    then four (0x10000 + (charcode % 1024 * 1024 + at rest 0 % 1024))
    else three
  where
    three : List ℕ
    three = (0xe0 + charcode / 4096) ∷ (0x80 + charcode / 64 % 64) ∷ (0x80 + charcode % 64) ∷ []

    four : ℕ → List ℕ
    four code =
        (0xf0 + code / 262144)
        ∷ (0x80 + code / 4096 % 64)
        ∷ (0x80 + code / 64 % 64)
        ∷ (0x80 + code % 64)
        ∷ []

-- by how much the body of the loop raises the index over its own step
abbrev pub units_eaten : ℕ → ℕ
units_eaten charcode = if ltb charcode 0xd800 then 0 else if ltb charcode 0xe000 then 1 else 0

-- The loop, `skip` units before the next one that it looks at.
unfoldable pub to_utf8_from : ℕ → List ℕ → List ℕ
to_utf8_from skip [] = []
to_utf8_from (suc skip) (charcode ∷ str) = to_utf8_from skip str
to_utf8_from zero (charcode ∷ str) =
    bytes_of charcode str ++ to_utf8_from (units_eaten charcode) str

abbrev pub to_utf8_array : List ℕ → List ℕ
to_utf8_array str = to_utf8_from 0 str

-- `(charCode >> 10) | 0xd800` on 32 bits and then the low 16 of them, where `code` is `charCode`
-- before `0x010000` is taken away: below that the difference is negative.
abbrev pub high_surrogate : ℕ → ℕ
high_surrogate code =
    if ltb code 0x10000 then 0xffc0 + code / 1024 else 0xd800 + (code - 0x10000) / 1024

-- The units that the byte `value` begins, before the bytes `rest`.
abbrev pub units_of : ℕ → List ℕ → List ℕ
units_of value rest =
    if ltb value 0x80
    then value ∷ []
    else if not (ltb value 0xc0) && ltb value 0xe0
    then (value % 32 * 64 + at rest 0 % 64) ∷ []
    else if not (ltb value 0xe0) && ltb value 0xf0
    then (value % 16 * 4096 + at rest 0 % 64 * 64 + at rest 1 % 64) ∷ []
    else surrogates
        (value % 8 * 262144 + at rest 0 % 64 * 4096 + at rest 1 % 64 * 64 + at rest 2 % 64)
  where
    surrogates : ℕ → List ℕ
    surrogates code = high_surrogate code ∷ (0xdc00 + code % 1024) ∷ []

abbrev pub bytes_eaten : ℕ → ℕ
bytes_eaten value =
    if ltb value 0x80
    then 0
    else if not (ltb value 0xc0) && ltb value 0xe0
    then 1
    else if not (ltb value 0xe0) && ltb value 0xf0
    then 2
    else 3

unfoldable pub from_utf8_from : ℕ → List ℕ → List ℕ
from_utf8_from skip [] = []
from_utf8_from (suc skip) (value ∷ data') = from_utf8_from skip data'
from_utf8_from zero (value ∷ data') =
    units_of value data' ++ from_utf8_from (bytes_eaten value) data'

abbrev pub from_utf8_array : List ℕ → List ℕ
from_utf8_array data' = from_utf8_from 0 data'
