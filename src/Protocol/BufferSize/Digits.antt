-- ===== src/Protocol/BufferSize/Digits.antt =====
-- The digits that dust-devil-core/src/buffer_size.rs reads, and the number that they stand for.
use dust_devil.Base.{
  ℕ, zero, suc, ◌+◌, ◌*◌, ◌^◌, ◌<◌, ◌≤◌, ◌≡◌, ◌∙◌, true, false, some, List, [], ◌∷◌, map, All, ltb,
  if◌then◌else◌, arith, Bool-cases, inl, inr,
}
use dust_devil.Io.{Text}
use dust_devil.Utf8.{is_whitespace}
use dust_devil.Serialize.Containers.{Result}
use dust_devil.Protocol.BufferSize.{
  to_ascii_lowercase, is_ascii_alphanumeric, to_digit, IntErrorKind, digits, from_str_radix,
}

unfoldable pub digit_char : ℕ → ℕ
digit_char d = if ltb d 10 then 48 + d else 87 + d

-- The number that digits stand for, behind `n`.
unfoldable pub value : (radix n : ℕ) → List ℕ → ℕ
value r n [] = n
value r n (d ∷ ds) = value r (n * r + d) ds

to_digit-digit_char : (r d : ℕ) → d < r → r ≤ 16 → to_digit (digit_char d) r ≡ some d
unfolding to_digit digit_char to_ascii_lowercase
to_digit-digit_char r d h k = ground (arith, h, k)

pub digit_char_black : (d : ℕ) → d < 16 → is_whitespace (digit_char d) ≡ false
unfolding digit_char
digit_char_black d h = ground (arith, h)

pub digit_char_plain : (d : ℕ) → d < 16 → is_ascii_alphanumeric (digit_char d) ≡ true
unfolding digit_char is_ascii_alphanumeric
digit_char_plain d h = ground (arith, h)

value_grows : (r n : ℕ) (ds : List ℕ) → 0 < r → n ≤ value r n ds
unfolding value
value_grows r n [] h = omega arith
value_grows zero n (d ∷ ds) h = ground (arith, h)
value_grows (suc r) n (d ∷ ds) h =
    let rest : n * suc r + d ≤ value (suc r) (n * suc r + d) ds =
      value_grows (suc r) (n * suc r + d) ds h in
    let first : n ≤ n * suc r + d = omega arith in omega (arith, rest, first)

digits_step :
    (r n d c : ℕ) (s : Text)
    → to_digit c r ≡ some d
    → digits r n (c ∷ s) ≡ (
        if ltb (n * r + d) (2 ^ 32)
        then digits r (n * r + d) s
        else Result.err IntErrorKind.pos_overflow)
unfolding digits
digits_step r n d c s h = ground (arith, h)

pub digits-value :
    (r n : ℕ) (ds : List ℕ)
    → 0 < r
    → r ≤ 16
    → All (λ d. d < r) ds
    → n < 2 ^ 32
    → digits r n (map digit_char ds) ≡ (
        if ltb (value r n ds) (2 ^ 32)
        then Result.ok (value r n ds)
        else Result.err IntErrorKind.pos_overflow)
unfolding digits value
digits-value r n [] p q h b = ground (arith, b)
digits-value r n (d ∷ ds) p q h b = elim (Bool-cases (ltb (n * r + d) (2 ^ 32))) [
  | inl fits ↦
      digits_step r n d (digit_char d) (map digit_char ds) (to_digit-digit_char r d h.0 q)
      ∙ rw fits (digits-value r (n * r + d) ds p q h.1 (ground (arith, fits)))
  | inr over ↦
      digits_step r n d (digit_char d) (map digit_char ds) (to_digit-digit_char r d h.0 q)
      ∙ (ground (arith, over, value_grows r (n * r + d) ds p))
]

pub from_str_radix-digits :
    (r d : ℕ) (ds : List ℕ)
    → d < 16
    → from_str_radix (map digit_char (d ∷ ds)) r ≡ digits r 0 (map digit_char (d ∷ ds))
unfolding from_str_radix digit_char
from_str_radix-digits r d [] h = ground (arith, h)
from_str_radix-digits r d (e ∷ ds) h = ground (arith, h)
