-- ===== src/Utf8.antt =====
-- UTF-8 as Rust's standard library reads and writes it: `char::encode_utf8`, `str::as_bytes` and
-- `std::str::from_utf8`, which dust-devil-core/src/serialize.rs relies on for every text.
pub mod RoundTrip
use dust_devil.Base.{
  ℕ, zero, suc, ◌+◌, ◌-◌, ◌*◌, ◌/◌, ◌%◌, ◌≤◌, ◌<◌, ◌⊎◌, Bool, ◌&&◌, ◌||◌, ◌==◌, not, Option, none,
  some, List, [], ◌∷◌, ◌++◌, ltb, leb, if◌then◌else◌, length,
}
use dust_devil.Io.{Bytes, Text}

-- A Rust `char`: a Unicode scalar value, so no surrogate.
abbrev pub IsChar : ℕ → Type 0
IsChar c = (c < 0xd800) ⊎ ((0xe000 ≤ c) × (c < 0x11_0000))

unfoldable pub encode_char : ℕ → Bytes
encode_char c =
    if ltb c 0x80
    then c ∷ []
    else if ltb c 0x800
    then (0xc0 + c / 64) ∷ (0x80 + c % 64) ∷ []
    else if ltb c 0x1_0000
    then (0xe0 + c / 4096) ∷ (0x80 + c / 64 % 64) ∷ (0x80 + c % 64) ∷ []
    else (0xf0 + c / 262144) ∷ (0x80 + c / 4096 % 64) ∷ (0x80 + c / 64 % 64) ∷ (0x80 + c % 64) ∷ []

-- `str::as_bytes`.
unfoldable pub as_bytes : Text → Bytes
as_bytes [] = []
as_bytes (c ∷ s) = encode_char c ++ as_bytes s

-- `str::len`, the length in bytes.
unfoldable pub byte_len : Text → ℕ
byte_len s = length (as_bytes s)

abbrev pub is_continuation : ℕ → Bool
is_continuation b = leb 0x80 b && ltb b 0xc0

-- Two, three and four bytes: the bytes behind the first must be continuation bytes, and the value
-- must need that many bytes and be no surrogate.
unfoldable pub decode_two : ℕ → Bytes → Option (ℕ × Bytes)
decode_two b (b1 ∷ rest) =
    let c = (b - 0xc0) * 64 + (b1 - 0x80) in
    if is_continuation b1 && leb 0x80 c then some (c, rest) else none
decode_two b _ = none

unfoldable pub decode_three : ℕ → Bytes → Option (ℕ × Bytes)
decode_three b (b1 ∷ b2 ∷ rest) =
    let c = (b - 0xe0) * 4096 + (b1 - 0x80) * 64 + (b2 - 0x80) in
    if is_continuation b1 && is_continuation b2 && leb 0x800 c && not (leb 0xd800 c && ltb c 0xe000)
    then some (c, rest)
    else none
decode_three b _ = none

unfoldable pub decode_four : ℕ → Bytes → Option (ℕ × Bytes)
decode_four b (b1 ∷ b2 ∷ b3 ∷ rest) =
    let c = (b - 0xf0) * 262144 + (b1 - 0x80) * 4096 + (b2 - 0x80) * 64 + (b3 - 0x80) in
    if is_continuation b1
      && is_continuation b2
      && is_continuation b3
      && leb 0x1_0000 c
      && ltb c 0x11_0000
    then some (c, rest)
    else none
decode_four b _ = none

-- The first character of a byte string, and the bytes behind it.
unfoldable pub decode_char : Bytes → Option (ℕ × Bytes)
unfolding decode_two decode_three decode_four
decode_char [] = none
decode_char (b ∷ rest) =
    if ltb b 0x80
    then some (b, rest)
    else if ltb b 0xc0
    then none
    else if ltb b 0xe0
    then decode_two b rest
    else if ltb b 0xf0
    then decode_three b rest
    else if ltb b 0xf8
    then decode_four b rest
    else none

-- Each round takes a byte at least, so as many rounds as bytes are enough.
pub decode_all : ℕ → Bytes → Option Text
decode_all fuel [] = some []
decode_all zero (b ∷ bs) = none
decode_all (suc fuel) (b ∷ bs) = elim (decode_char (b ∷ bs)) [
  | none ↦ none
  | some (c, rest) ↦ elim (decode_all fuel rest) [ none ↦ none | some s ↦ some (c ∷ s) ]
]

-- `std::str::from_utf8`, its `Ok` or not.
unfoldable pub from_utf8 : Bytes → Option Text
unfolding decode_all
from_utf8 bs = decode_all (length bs) bs

-- The bytes of the longest start that is UTF-8, as `Utf8Error::valid_up_to` gives them.
unfoldable pub valid_up_to_from : ℕ → Bytes → ℕ
valid_up_to_from zero bs = 0
valid_up_to_from (suc fuel) bs = elim (decode_char bs) [
  | none ↦ 0
  | some (c, rest) ↦ length (encode_char c) + valid_up_to_from fuel rest
]

unfoldable pub valid_up_to : Bytes → ℕ
unfolding valid_up_to_from
valid_up_to bs = valid_up_to_from (length bs) bs

-- `char::is_whitespace`.
abbrev pub is_whitespace : ℕ → Bool
is_whitespace c =
    (leb 9 c && leb c 13)
    || (c == 0x20)
    || (c == 0x85)
    || (c == 0xa0)
    || (c == 0x1680)
    || (leb 0x2000 c && leb c 0x200a)
    || (c == 0x2028)
    || (c == 0x2029)
    || (c == 0x202f)
    || (c == 0x205f)
    || (c == 0x3000)
