-- ===== src/Protocol/BufferSize.antt =====
-- dust-devil-core/src/buffer_size.rs: sizes as people write them. A text is its characters; where the
-- source cuts bytes off a text they are those of ASCII characters. `trim`, `to_digit` and `from_str_radix`
-- are Rust's, over characters.
pub mod Digits
pub mod Bounds
pub mod Laws
use dust_devil.Base.{
  ℕ, zero, suc, ◌+◌, ◌-◌, ◌*◌, ◌^◌, Bool, true, false, ◌&&◌, ◌||◌, Option, none, some, List, [],
  ◌∷◌, ◌==◌, leb, ltb, if◌then◌else◌,
}
use dust_devil.Io.{Text}
use dust_devil.Utf8.{is_whitespace}
use dust_devil.Serialize.Containers.{Result}

pub data PrettyBufferSizeParseError : Type 0 where
  empty zero_size invalid_format invalid_characters too_large : PrettyBufferSizeParseError

abbrev pub between : (low high c : ℕ) → Bool
between low high c = leb low c && leb c high

unfoldable pub trim_front : Text → Text
trim_front [] = []
trim_front (c ∷ s) = let rest = trim_front s in if is_whitespace c then rest else c ∷ s

unfoldable pub trim_end : Text → Text
trim_end [] = []
trim_end (c ∷ s) = elim (trim_end s) [
  | [] ↦ if is_whitespace c then [] else c ∷ []
  | d ∷ rest ↦ c ∷ d ∷ rest
]

unfoldable pub to_ascii_lowercase : ℕ → ℕ
to_ascii_lowercase c = if between 65 90 c then c + 32 else c

-- The prefix of a radix, and what is behind it.
unfoldable pub split_radix : Text → Text × ℕ
unfolding to_ascii_lowercase
split_radix [] = ([], 10)
split_radix (z ∷ []) = (z ∷ [], 10)
split_radix (z ∷ x ∷ s) =
    if (z == b'0') && (to_ascii_lowercase x == b'x')
    then (s, 16)
    else if (z == b'0') && (to_ascii_lowercase x == b'o')
    then (s, 8)
    else if (z == b'0') && (to_ascii_lowercase x == b'b')
    then (s, 2)
    else (z ∷ x ∷ s, 10)

unfoldable pub next_back : Text → Option (Text × ℕ)
next_back [] = none
next_back (c ∷ s) = elim (next_back s) [ none ↦ some ([], c) | some (t, d) ↦ some (c ∷ t, d) ]

unfoldable pub multiplier : ℕ → Option ℕ
unfolding to_ascii_lowercase
multiplier c =
    if to_ascii_lowercase c == b'k'
    then some 1024
    else if to_ascii_lowercase c == b'm'
    then some (1024 * 1024)
    else if to_ascii_lowercase c == b'g'
    then some (1024 * 1024 * 1024)
    else none

-- What stands before a `b`.
unfoldable pub before_b : ℕ → (s t : Text) → Text × ℕ
unfolding next_back multiplier
before_b radix s t = elim (next_back t) [
  | none ↦ (s, 1)
  | some (u, d) ↦ elim (multiplier d) [
    | some k ↦ (u, k)
    | none ↦ if ltb radix 11 then (t, 1) else (s, 1)
  ]
]

unfoldable pub split_multiplier : ℕ → Text → Text × ℕ
unfolding before_b
split_multiplier radix s = elim (next_back s) [
  | none ↦ (s, 1)
  | some (t, c) ↦ elim (multiplier c) [
    | some k ↦ (t, k)
    | none ↦ if to_ascii_lowercase c == b'b' then before_b radix s t else (s, 1)
  ]
]

unfoldable pub is_ascii_alphanumeric : ℕ → Bool
is_ascii_alphanumeric c = between 48 57 c || (between 65 90 c || between 97 122 c)

-- `char::to_digit`
unfoldable pub to_digit : ℕ → (radix : ℕ) → Option ℕ
unfolding to_ascii_lowercase
to_digit c radix =
    let lower = to_ascii_lowercase c in
    let digit =
      if between 48 57 c then c - 48 else if between 97 122 lower then lower - 87 else radix in
    if ltb digit radix then some digit else none

pub data IntErrorKind : Type 0 where
  no_digits invalid_digit pos_overflow : IntErrorKind

-- The digits, behind those that gave `n`.
unfoldable pub digits : (radix n : ℕ) → Text → Result ℕ IntErrorKind
unfolding to_digit
digits radix n [] = Result.ok n
digits radix n (c ∷ s) = elim (to_digit c radix) [
  | none ↦ Result.err IntErrorKind.invalid_digit
  | some d ↦
      let rest = digits radix (n * radix + d) s in
      if ltb (n * radix + d) (2 ^ 32) then rest else Result.err IntErrorKind.pos_overflow
]

-- `u32::from_str_radix`
unfoldable pub from_str_radix : Text → (radix : ℕ) → Result ℕ IntErrorKind
unfolding digits
from_str_radix [] radix = Result.err IntErrorKind.no_digits
from_str_radix (c ∷ []) radix =
    if (c == b'+') || (c == b'-')
    then Result.err IntErrorKind.invalid_digit
    else digits radix 0 (c ∷ [])
from_str_radix (c ∷ d ∷ s) radix =
    if c == b'+' then digits radix 0 (d ∷ s) else digits radix 0 (c ∷ d ∷ s)

abbrev error_of_kind : IntErrorKind → PrettyBufferSizeParseError
error_of_kind IntErrorKind.no_digits = PrettyBufferSizeParseError.empty
error_of_kind IntErrorKind.pos_overflow = PrettyBufferSizeParseError.too_large
error_of_kind IntErrorKind.invalid_digit = PrettyBufferSizeParseError.invalid_characters

unfoldable pub scaled : ℕ → Result ℕ IntErrorKind → Result ℕ PrettyBufferSizeParseError
scaled k (Result.err e) = Result.err (error_of_kind e)
scaled k (Result.ok zero) = Result.err PrettyBufferSizeParseError.zero_size
scaled k (Result.ok (suc n)) =
    if ltb (suc n * k) (2 ^ 32)
    then Result.ok (suc n * k)
    else Result.err PrettyBufferSizeParseError.too_large

unfoldable pub parse_number : ℕ → Text × ℕ → Result ℕ PrettyBufferSizeParseError
unfolding is_ascii_alphanumeric scaled from_str_radix
parse_number radix ([], k) = Result.err PrettyBufferSizeParseError.invalid_format
parse_number radix (c ∷ s, k) =
    if is_ascii_alphanumeric c
    then scaled k (from_str_radix (c ∷ s) radix)
    else Result.err PrettyBufferSizeParseError.invalid_format

unfoldable pub parse_radix : Text × ℕ → Result ℕ PrettyBufferSizeParseError
unfolding parse_number split_multiplier
parse_radix (s, radix) = parse_number radix (split_multiplier radix s)

unfoldable pub parse_pretty_buffer_size : Text → Result ℕ PrettyBufferSizeParseError
unfolding parse_radix split_radix trim_front trim_end
parse_pretty_buffer_size s = elim (trim_end (trim_front s)) [
  | [] ↦ Result.err PrettyBufferSizeParseError.empty
  | c ∷ t ↦ parse_radix (split_radix (c ∷ t))
]
