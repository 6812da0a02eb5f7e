-- ===== src/Utf8/RoundTrip.antt =====
-- Decoding what was encoded.
use dust_devil.Base.{
  sym, ap, ◌∙◌, append_assoc, ◌+◌, ℕ, zero, suc, ◌≤◌, ◌<◌, ◌≡◌, refl, inl, inr, Option,
  Option-cases, none, some, [], ◌∷◌, ◌++◌, length, length-append, All, All-append, arith, ltb,
  if◌then◌else◌, ltb,
}
use mathlib.Core.Path.{subst}
use dust_devil.Io.{Bytes, Text}
use dust_devil.Utf8.{
  byte_len, IsChar, encode_char, as_bytes, decode_two, decode_three, decode_four, decode_char,
  decode_all, from_utf8,
}

abbrev pub IsByte : ℕ → Type 0
IsByte b = b < 256

pub encode_char-IsByte : (c : ℕ) → IsChar c → All IsByte (encode_char c)
unfolding encode_char
encode_char-IsByte c h = ground arith

pub as_bytes-IsByte : (s : Text) → All IsChar s → All IsByte (as_bytes s)
unfolding as_bytes
as_bytes-IsByte [] h = tt
as_bytes-IsByte (c ∷ s) h =
    All-append IsByte (encode_char c) (as_bytes s) (encode_char-IsByte c h.0)
      (as_bytes-IsByte s h.1)

-- The first character of an encoded text comes back, whatever follows.
pub decode_char-encode_char :
    (c : ℕ) (rest : Bytes) → IsChar c → decode_char (encode_char c ++ rest) ≡ some (c, rest)
unfolding decode_char encode_char
decode_char-encode_char c rest h = ground arith

pub length-encode_char : (c : ℕ) → (1 ≤ length (encode_char c)) × (length (encode_char c) ≤ 4)
unfolding encode_char
length-encode_char c = ground arith

decode_all_step :
    (fuel : ℕ) (src : Bytes) {c : ℕ} {rest : Bytes} {s : Text}
    → decode_char src ≡ some (c, rest)
    → decode_all fuel rest ≡ some s
    → decode_all (suc fuel) src ≡ some (c ∷ s)
unfolding decode_all
decode_all_step fuel [] p q = unfold decode_char in cc
decode_all_step fuel (b ∷ bs) p q = ground arith

decode_all-nil : (fuel : ℕ) → decode_all fuel [] ≡ some []
unfolding decode_all
decode_all-nil zero = refl
decode_all-nil (suc fuel) = refl

decode_all-as_bytes :
    (s : Text) (fuel : ℕ)
    → All IsChar s
    → length (as_bytes s) ≤ fuel
    → decode_all fuel (as_bytes s) ≡ some s
unfolding as_bytes
decode_all-as_bytes [] fuel h hf = decode_all-nil fuel
decode_all-as_bytes (c ∷ s) zero h hf =
    absurd (omega (arith, length-encode_char c, length-append (encode_char c) (as_bytes s)))
decode_all-as_bytes (c ∷ s) (suc fuel) h hf =
    decode_all_step fuel _ (decode_char-encode_char c (as_bytes s) h.0) (
      decode_all-as_bytes s fuel h.1
        (omega (arith, length-encode_char c, length-append (encode_char c) (as_bytes s))))

-- `from_utf8` accepts the bytes of every text and gives the text back.
pub from_utf8-as_bytes : (s : Text) → All IsChar s → from_utf8 (as_bytes s) ≡ some s
unfolding from_utf8
from_utf8-as_bytes s h = decode_all-as_bytes s (length (as_bytes s)) h (omega arith)

decode_two_sound :
    (b : ℕ) (src : Bytes) (c : ℕ) (rest : Bytes)
    → 0xc0 ≤ b
    → b < 0xe0
    → All IsByte src
    → decode_two b src ≡ some (c, rest)
    → IsChar c × (b ∷ src ≡ encode_char c ++ rest)
unfolding decode_two encode_char
decode_two_sound b [] c rest lo hi hb h = cc
decode_two_sound b (b1 ∷ l) c rest lo hi hb h = ground arith

decode_three_sound :
    (b : ℕ) (src : Bytes) (c : ℕ) (rest : Bytes)
    → 0xe0 ≤ b
    → b < 0xf0
    → All IsByte src
    → decode_three b src ≡ some (c, rest)
    → IsChar c × (b ∷ src ≡ encode_char c ++ rest)
unfolding decode_three encode_char
decode_three_sound b [] c rest lo hi hb h = cc
decode_three_sound b (b1 ∷ []) c rest lo hi hb h = cc
decode_three_sound b (b1 ∷ b2 ∷ l) c rest lo hi hb h = ground arith

decode_four_sound :
    (b : ℕ) (src : Bytes) (c : ℕ) (rest : Bytes)
    → 0xf0 ≤ b
    → b < 0xf8
    → All IsByte src
    → decode_four b src ≡ some (c, rest)
    → IsChar c × (b ∷ src ≡ encode_char c ++ rest)
unfolding decode_four encode_char
decode_four_sound b [] c rest lo hi hb h = cc
decode_four_sound b (b1 ∷ []) c rest lo hi hb h = cc
decode_four_sound b (b1 ∷ b2 ∷ []) c rest lo hi hb h = cc
decode_four_sound b (b1 ∷ b2 ∷ b3 ∷ l) c rest lo hi hb h = ground arith

one_byte : (b : ℕ) → b < 0x80 → encode_char b ≡ b ∷ []
unfolding encode_char
one_byte b h = ground arith

-- `decode_char` with its branches shut.
decode_first : ℕ → Bytes → Option (ℕ × Bytes)
decode_first b rest =
    if ltb b 0x80
    then some (b, rest)
    else if ltb b 0xc0
    then none
    else if ltb b 0xe0
    then decode_two b rest
    else if ltb b 0xf0
    then decode_three b rest
    else if ltb b 0xf8
    then decode_four b rest
    else none

decode_step_sound :
    (b : ℕ) (src : Bytes) (c : ℕ) (rest : Bytes)
    → All IsByte (b ∷ src)
    → decode_first b src ≡ some (c, rest)
    → IsChar c × (b ∷ src ≡ encode_char c ++ rest)
unfolding decode_first
decode_step_sound b src c rest hb h = ground (
  arith,
  one_byte b,
  decode_two_sound b src c rest,
  decode_three_sound b src c rest,
  decode_four_sound b src c rest,
)

-- What decodes is a character, and its encoding is what was taken.
pub decode_char_sound :
    (src : Bytes) (c : ℕ) (rest : Bytes)
    → All IsByte src
    → decode_char src ≡ some (c, rest)
    → IsChar c × (src ≡ encode_char c ++ rest)
decode_char_sound [] c rest hb h = unfold decode_char in cc
decode_char_sound (b ∷ src) c rest hb h =
    unfold decode_first decode_char in decode_step_sound b src c rest hb h

All-tail_append : (xs ys : Bytes) → All IsByte (xs ++ ys) → All IsByte ys
All-tail_append [] ys h = h
All-tail_append (x ∷ xs) ys h = All-tail_append xs ys h.1

decode_all_sound :
    (fuel : ℕ) (bs : Bytes) (s : Text)
    → All IsByte bs
    → decode_all fuel bs ≡ some s
    → All IsChar s × (bs ≡ as_bytes s)
unfolding decode_all as_bytes
decode_all_sound fuel [] s hb h = ground (arith, decode_all-nil fuel)
decode_all_sound zero (b ∷ bs) s hb h = cc
decode_all_sound (suc fuel) (b ∷ bs) s hb h = elim (Option-cases (decode_char (b ∷ bs))) [
  | inl e ↦ ground arith
  | inr ((c, rest), e) ↦ elim (Option-cases (decode_all fuel rest)) [
    | inl e' ↦ ground arith
    | inr (t, e') ↦
        let (hc, hs) = decode_char_sound (b ∷ bs) c rest hb e in
        let hr : All IsByte rest =
          All-tail_append (encode_char c) rest (subst (λ l. All IsByte l) hs hb) in
        ground (arith, decode_all_sound fuel rest t hr e')
  ]
]

-- What `from_utf8` accepts is the encoding of the text that it gives.
pub from_utf8_sound :
    (bs : Bytes) (s : Text)
    → All IsByte bs
    → from_utf8 bs ≡ some s
    → All IsChar s × (bs ≡ as_bytes s)
unfolding from_utf8
from_utf8_sound bs s hb h = decode_all_sound (length bs) bs s hb h

pub as_bytes-append : (s t : Text) → as_bytes (s ++ t) ≡ as_bytes s ++ as_bytes t
unfolding as_bytes
as_bytes-append [] t = refl
as_bytes-append (c ∷ s) t =
    ap (λ r. encode_char c ++ r) (as_bytes-append s t)
    ∙ sym (append_assoc (encode_char c) (as_bytes s) (as_bytes t))

pub byte_len-append : (s t : Text) → byte_len (s ++ t) ≡ byte_len s + byte_len t
unfolding byte_len
byte_len-append s t = ap length (as_bytes-append s t) ∙ length-append (as_bytes s) (as_bytes t)

pub byte_len-cons : (c : ℕ) (s : Text) → byte_len s + 1 ≤ byte_len (c ∷ s)
unfolding byte_len as_bytes
byte_len-cons c s =
    omega (arith, length-append (encode_char c) (as_bytes s), (length-encode_char c).0)
