-- ===== src/Protocol/BufferSize/Laws.antt =====
-- What `parse_pretty_buffer_size` of dust-devil-core/src/buffer_size.rs makes of a number in any of the
-- four radices with a suffix.
use dust_devil.Base.{
  ℕ, zero, suc, ◌*◌, ◌^◌, ◌<◌, ◌≤◌, ◌≡◌, refl, sym, ap, ◌∙◌, Bool, true, false, some, List, [], ◌∷◌,
  ◌++◌, append_assoc, map, All, All-append, ◌==◌, ltb, if◌then◌else◌, arith,
}
use dust_devil.Io.{Text}
use dust_devil.Utf8.{is_whitespace}
use dust_devil.Serialize.Containers.{Result}
use dust_devil.Protocol.BufferSize.Digits.{
  digit_char, value, digit_char_black, digit_char_plain, digits-value, from_str_radix-digits,
}
use dust_devil.Protocol.BufferSize.{
  PrettyBufferSizeParseError, trim_front, trim_end, to_ascii_lowercase, split_radix, next_back,
  multiplier, before_b, split_multiplier, is_ascii_alphanumeric, IntErrorKind, from_str_radix,
  scaled, parse_number, parse_radix, parse_pretty_buffer_size,
}

trim_front_same : (c : ℕ) (s : Text) → is_whitespace c ≡ false → trim_front (c ∷ s) ≡ c ∷ s
unfolding trim_front
trim_front_same c s h = rw h

trim_end_same : (s : Text) → All (λ c. is_whitespace c ≡ false) s → trim_end s ≡ s
unfolding trim_end
trim_end_same [] h = refl
trim_end_same (c ∷ []) h = rw h.0
trim_end_same (c ∷ d ∷ s) h = rw (trim_end_same (d ∷ s) h.1)

next_back-append : (s : Text) (c : ℕ) → next_back (s ++ c ∷ []) ≡ some (s, c)
unfolding next_back
next_back-append [] c = refl
next_back-append (d ∷ s) c = rw (next_back-append s c)

-- The four radices with their prefixes, and the suffixes.
pub data Radix : Type 0 where
  binary octal decimal hexadecimal : Radix

pub data Suffix : Type 0 where
  kilo mega giga : Suffix

abbrev pub base : Radix → ℕ
base Radix.binary = 2
base Radix.octal = 8
base Radix.decimal = 10
base Radix.hexadecimal = 16

abbrev pub prefix : Radix → Text
prefix Radix.binary = b'0' ∷ b'b' ∷ []
prefix Radix.octal = b'0' ∷ b'o' ∷ []
prefix Radix.decimal = []
prefix Radix.hexadecimal = b'0' ∷ b'x' ∷ []

abbrev pub letter : Suffix → ℕ
letter Suffix.kilo = b'k'
letter Suffix.mega = b'm'
letter Suffix.giga = b'g'

abbrev pub factor : Suffix → ℕ
factor Suffix.kilo = 1024
factor Suffix.mega = 1024 * 1024
factor Suffix.giga = 1024 * 1024 * 1024

abbrev pub suffix : Suffix → (with_b : Bool) → Text
suffix s true = letter s ∷ b'b' ∷ []
suffix s false = letter s ∷ []

base_fits : (r : Radix) → (0 < base r) × (base r ≤ 16)
base_fits Radix.binary = (omega arith, omega arith)
base_fits Radix.octal = (omega arith, omega arith)
base_fits Radix.decimal = (omega arith, omega arith)
base_fits Radix.hexadecimal = (omega arith, omega arith)

multiplier-letter : (s : Suffix) → multiplier (letter s) ≡ some (factor s)
unfolding multiplier to_ascii_lowercase
multiplier-letter Suffix.kilo = refl
multiplier-letter Suffix.mega = refl
multiplier-letter Suffix.giga = refl

before_b-letter :
    (r : ℕ) (all body : Text) (s : Suffix)
    → before_b r all (body ++ letter s ∷ []) ≡ (body, factor s)
unfolding before_b
before_b-letter r all body s = ground (arith, next_back-append body (letter s), multiplier-letter s)

split_multiplier-b :
    (r : ℕ) (all t : Text)
    → next_back all ≡ some (t, b'b')
    → split_multiplier r all ≡ before_b r all t
unfolding split_multiplier multiplier to_ascii_lowercase
split_multiplier-b r all t h = ground (arith, h)

split_multiplier-suffix :
    (r : ℕ) (body : Text) (s : Suffix) (with_b : Bool)
    → split_multiplier r (body ++ suffix s with_b) ≡ (body, factor s)
unfolding split_multiplier
split_multiplier-suffix r body s false =
    ground (arith, next_back-append body (letter s), multiplier-letter s)
split_multiplier-suffix r body s true =
    let all = body ++ letter s ∷ b'b' ∷ [] in
    split_multiplier-b r all (body ++ letter s ∷ []) (
      ap next_back (sym (append_assoc body (letter s ∷ []) (b'b' ∷ [])))
      ∙ next_back-append (body ++ letter s ∷ []) b'b')
    ∙ before_b-letter r all body s

-- A number as people write it.
abbrev pub pretty : Radix → List ℕ → Suffix → (with_b : Bool) → Text
pretty r ds s with_b = prefix r ++ (map digit_char ds ++ suffix s with_b)

decimal_alone :
    (x : ℕ) (s : Suffix) (with_b : Bool)
    → split_radix (x ∷ suffix s with_b) ≡ (x ∷ suffix s with_b, 10)
unfolding split_radix to_ascii_lowercase
decimal_alone x Suffix.kilo true = ground arith
decimal_alone x Suffix.kilo false = ground arith
decimal_alone x Suffix.mega true = ground arith
decimal_alone x Suffix.mega false = ground arith
decimal_alone x Suffix.giga true = ground arith
decimal_alone x Suffix.giga false = ground arith

split_radix-decimal :
    (z d : ℕ) (t : Text) → d < 10 → split_radix (z ∷ digit_char d ∷ t) ≡ (z ∷ digit_char d ∷ t, 10)
unfolding split_radix to_ascii_lowercase digit_char
split_radix-decimal z d t h = ground (arith, h)

split_radix-pretty :
    (r : Radix) (d : ℕ) (ds : List ℕ) (s : Suffix) (with_b : Bool)
    → All (λ e. e < base r) (d ∷ ds)
    → split_radix (pretty r (d ∷ ds) s with_b)
      ≡ (map digit_char (d ∷ ds) ++ suffix s with_b, base r)
unfolding split_radix to_ascii_lowercase
split_radix-pretty Radix.binary d ds s with_b h = refl
split_radix-pretty Radix.octal d ds s with_b h = refl
split_radix-pretty Radix.hexadecimal d ds s with_b h = refl
split_radix-pretty Radix.decimal d [] s with_b h = decimal_alone (digit_char d) s with_b
split_radix-pretty Radix.decimal d (e ∷ ds) s with_b h =
    split_radix-decimal (digit_char d) e (map digit_char ds ++ suffix s with_b) h.1.0

abbrev Black : Text → Type 0
Black = All (λ c. is_whitespace c ≡ false)

digits-Black : (ds : List ℕ) → All (λ d. d < 16) ds → Black (map digit_char ds)
digits-Black [] h = tt
digits-Black (d ∷ ds) h = (digit_char_black d h.0, digits-Black ds h.1)

prefix-Black : (r : Radix) → Black (prefix r)
prefix-Black Radix.binary = (refl, (refl, tt))
prefix-Black Radix.octal = (refl, (refl, tt))
prefix-Black Radix.decimal = tt
prefix-Black Radix.hexadecimal = (refl, (refl, tt))

suffix-Black : (s : Suffix) (with_b : Bool) → Black (suffix s with_b)
suffix-Black Suffix.kilo true = (refl, (refl, tt))
suffix-Black Suffix.kilo false = (refl, tt)
suffix-Black Suffix.mega true = (refl, (refl, tt))
suffix-Black Suffix.mega false = (refl, tt)
suffix-Black Suffix.giga true = (refl, (refl, tt))
suffix-Black Suffix.giga false = (refl, tt)

below_16 : (r : ℕ) (ds : List ℕ) → r ≤ 16 → All (λ d. d < r) ds → All (λ d. d < 16) ds
below_16 r [] q h = tt
below_16 r (d ∷ ds) q h = (ground (arith, h.0, q), below_16 r ds q h.1)

after_trim :
    (s : Text) (c : ℕ) (t : Text)
    → trim_end (trim_front s) ≡ c ∷ t
    → parse_pretty_buffer_size s ≡ parse_radix (split_radix (c ∷ t))
unfolding parse_pretty_buffer_size
after_trim s c t h = rw (parse_pretty_buffer_size, h)

parse-Black :
    (c : ℕ) (t : Text)
    → Black (c ∷ t)
    → parse_pretty_buffer_size (c ∷ t) ≡ parse_radix (split_radix (c ∷ t))
parse-Black c t h =
    after_trim (c ∷ t) c t (ap trim_end (trim_front_same c t h.0) ∙ trim_end_same (c ∷ t) h)

-- The outcome for the number `v` with a suffix.
unfoldable pub outcome : ℕ → Suffix → Result ℕ PrettyBufferSizeParseError
outcome v s =
    if v == 0
    then Result.err PrettyBufferSizeParseError.zero_size
    else if ltb (v * factor s) (2 ^ 32)
    then Result.ok (v * factor s)
    else Result.err PrettyBufferSizeParseError.too_large

scaled-outcome :
    (v : ℕ) (s : Suffix)
    → scaled
        (factor s)
        (if ltb v (2 ^ 32) then Result.ok v else Result.err IntErrorKind.pos_overflow)
      ≡ outcome v s
unfolding scaled outcome
scaled-outcome zero s = refl
scaled-outcome (suc v) Suffix.kilo = ground arith
scaled-outcome (suc v) Suffix.mega = ground arith
scaled-outcome (suc v) Suffix.giga = ground arith

parse-pretty :
    (r : Radix) (d : ℕ) (ds : List ℕ) (s : Suffix) (with_b : Bool)
    → Black (pretty r (d ∷ ds) s with_b)
    → parse_pretty_buffer_size (pretty r (d ∷ ds) s with_b)
      ≡ parse_radix (split_radix (pretty r (d ∷ ds) s with_b))
parse-pretty Radix.binary d ds s with_b h = parse-Black _ _ h
parse-pretty Radix.octal d ds s with_b h = parse-Black _ _ h
parse-pretty Radix.decimal d ds s with_b h = parse-Black _ _ h
parse-pretty Radix.hexadecimal d ds s with_b h = parse-Black _ _ h

parse_number-plain :
    (r c k : ℕ) (t : Text)
    → is_ascii_alphanumeric c ≡ true
    → parse_number r (c ∷ t, k) ≡ scaled k (from_str_radix (c ∷ t) r)
unfolding parse_number
parse_number-plain r c k t h = rw h

parse_number-digits :
    (r : Radix) (d : ℕ) (ds : List ℕ) (s : Suffix)
    → All (λ e. e < base r) (d ∷ ds)
    → parse_number (base r) (map digit_char (d ∷ ds), factor s)
      ≡ outcome (value (base r) 0 (d ∷ ds)) s
parse_number-digits r d ds s h =
    let low = (below_16 (base r) (d ∷ ds) (base_fits r).1 h).0 in
    parse_number-plain (base r) (digit_char d) (factor s) (map digit_char ds)
      (digit_char_plain d low)
    ∙ ap (scaled (factor s)) (
        from_str_radix-digits (base r) d ds low
        ∙ digits-value (base r) 0 (d ∷ ds) (base_fits r).0 (base_fits r).1 h (omega arith))
    ∙ scaled-outcome (value (base r) 0 (d ∷ ds)) s

-- A number with at least one digit below its radix, behind the radix's prefix (none for 10) and before `k`,
-- `m` or `g`, with or without a `b`, is the number times the factor of the suffix, Zero where the number is
-- 0, and TooLarge where the product needs more than 32 bits.
pub parse_pretty_buffer_size-pretty :
    (r : Radix) (d : ℕ) (ds : List ℕ) (s : Suffix) (with_b : Bool)
    → All (λ e. e < base r) (d ∷ ds)
    → parse_pretty_buffer_size (pretty r (d ∷ ds) s with_b) ≡ outcome (value (base r) 0 (d ∷ ds)) s
unfolding parse_radix
parse_pretty_buffer_size-pretty r d ds s with_b h =
    let body = map digit_char (d ∷ ds) in
    let black = All-append _ (prefix r) (body ++ suffix s with_b) (prefix-Black r) (
      All-append _ body (suffix s with_b)
        (digits-Black (d ∷ ds) (below_16 (base r) (d ∷ ds) (base_fits r).1 h))
        (suffix-Black s with_b)) in
    parse-pretty r d ds s with_b black
    ∙ ap parse_radix (split_radix-pretty r d ds s with_b h)
    ∙ ap (parse_number (base r)) (split_multiplier-suffix (base r) body s with_b)
    ∙ parse_number-digits r d ds s h
