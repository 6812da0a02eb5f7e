-- ===== src/Protocol/BufferSize/Bounds.antt =====
-- The sizes that `parse_pretty_buffer_size` of dust-devil-core/src/buffer_size.rs gives.
use mathlib.Core.Path.{subst}
use dust_devil.Base.{
  ℕ, zero, suc, ◌^◌, ◌<◌, ◌≡◌, refl, Option, Option-cases, none, some, [], ◌∷◌, ◌==◌, ltb,
  if◌then◌else◌, arith, Bool-cases, inl, inr,
}
use dust_devil.Io.{Text}
use dust_devil.Serialize.Containers.{Result}
use dust_devil.Protocol.BufferSize.{
  PrettyBufferSizeParseError, trim_front, trim_end, to_ascii_lowercase, split_radix, next_back,
  multiplier, before_b, split_multiplier, is_ascii_alphanumeric, IntErrorKind, from_str_radix,
  scaled, parse_number, parse_radix, parse_pretty_buffer_size,
}

abbrev IsSize : Result ℕ PrettyBufferSizeParseError → Type 0
IsSize (Result.ok n) = (0 < n) × (n < 2 ^ 32)
IsSize (Result.err e) = Unit

multiplier_pos : (c k : ℕ) → multiplier c ≡ some k → 0 < k
unfolding multiplier
multiplier_pos c k h = ground (arith, h)

-- A suffix with a factor, or what is taken where there is none.
with_factor : Option ℕ → Text → Text × ℕ → Text × ℕ
with_factor (some k) u other = (u, k)
with_factor none u other = other

with_factor_pos :
    (o : Option ℕ) (u : Text) (other : Text × ℕ)
    → ((k : ℕ) → o ≡ some k → 0 < k)
    → 0 < other.1
    → 0 < (with_factor o u other).1
unfolding with_factor
with_factor_pos none u other h p = p
with_factor_pos (some k) u other h p = h k refl

before_b_pos : (radix : ℕ) (s t : Text) → 0 < (before_b radix s t).1
unfolding before_b with_factor
before_b_pos radix s t = elim (Option-cases (next_back t)) [
  | inl e ↦ ground (arith, e)
  | inr ((u, d), e) ↦
      let p =
        with_factor_pos (multiplier d) u (if ltb radix 11 then (t, 1) else (s, 1))
          (multiplier_pos d) (ground arith) in
      ground (arith, e, p)
]

split_multiplier_pos : (radix : ℕ) (s : Text) → 0 < (split_multiplier radix s).1
unfolding split_multiplier with_factor
split_multiplier_pos radix s = elim (Option-cases (next_back s)) [
  | inl e ↦ ground (arith, e)
  | inr ((t, c), e) ↦
      let p =
        with_factor_pos (multiplier c) t
          (if to_ascii_lowercase c == b'b' then before_b radix s t else (s, 1)) (multiplier_pos c)
          (ground (arith, before_b_pos radix s t)) in
      ground (arith, e, p)
]

scaled-IsSize : (k : ℕ) (o : Result ℕ IntErrorKind) → 0 < k → IsSize (scaled k o)
unfolding scaled
scaled-IsSize k (Result.err e) h = tt
scaled-IsSize k (Result.ok zero) h = tt
scaled-IsSize (suc k) (Result.ok (suc n)) h = ground arith
scaled-IsSize zero (Result.ok (suc n)) h = elim h [ ]

parse_number-IsSize : (radix : ℕ) (s : Text) (k : ℕ) → 0 < k → IsSize (parse_number radix (s, k))
unfolding parse_number
parse_number-IsSize radix [] k h = tt
parse_number-IsSize radix (c ∷ s) k h = elim (Bool-cases (is_ascii_alphanumeric c)) [
  | inl e ↦ rw e (scaled-IsSize k (from_str_radix (c ∷ s) radix) h)
  | inr e ↦ rw e tt
]

parse-IsSize : (s : Text) → IsSize (parse_pretty_buffer_size s)
unfolding parse_pretty_buffer_size parse_radix
parse-IsSize s = go (trim_end (trim_front s))
  where
    go :
        (t : Text)
        → IsSize (elim t as (λ x. Result ℕ PrettyBufferSizeParseError) [
          | [] ↦ Result.err PrettyBufferSizeParseError.empty
          | c ∷ t ↦ parse_radix (split_radix (c ∷ t))
        ])
    go [] = tt
    go (c ∷ t) =
        let r = split_radix (c ∷ t) in
        parse_number-IsSize r.1 (split_multiplier r.1 r.0).0 (split_multiplier r.1 r.0).1
          (split_multiplier_pos r.1 r.0)

-- A size is not 0 and has 32 bits.
pub parse_pretty_buffer_size_bounds :
    (s : Text) (n : ℕ) → parse_pretty_buffer_size s ≡ Result.ok n → (0 < n) × (n < 2 ^ 32)
parse_pretty_buffer_size_bounds s n h = subst IsSize h (parse-IsSize s)
