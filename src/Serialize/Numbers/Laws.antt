-- ===== src/Serialize/Numbers/Laws.antt =====
-- Round trips of the numbers of serialize.rs.
use dust_devil.Base.{
  ℕ, zero, suc, ◌+◌, ◌*◌, ◌/◌, ◌%◌, ◌^◌, ◌<◌, ◌≡◌, refl, Bool, true, false, some, [], ◌∷◌, ◌++◌,
  length, length-append, arith, not, ◌==◌,
}
use native.Mathlib.Nat.{pow-suc}
use dust_devil.Io.{Bytes, Text}
use dust_devil.Io.Reader.{◌>>=◌, pure, take_byte}
use dust_devil.Io.Writer.{write_all}
use dust_devil.Io.Wire.{Wire, Wire-map, Wire-byte, Wire-bytes}
use mathlib.Core.Path.{subst}
use dust_devil.Serialize.Numbers.{
  be_bytes, be_value_from, write_uint, read_uint, write_u8, read_u8, write_bool, read_bool, ℤ, pos,
  negsuc, IsI64, i64_bits, i64_of_bits, write_i64, read_i64, U8ReprEnum, write_enum, read_enum,
  enum_of,
}

pub length-be_bytes : (k v : ℕ) → length (be_bytes k v) ≡ k
unfolding be_bytes
length-be_bytes zero v = refl
length-be_bytes (suc k) v =
    omega (arith, length-append (be_bytes k (v / 256)) (v % 256 ∷ []), length-be_bytes k (v / 256))

be_value_from-append :
    (acc : ℕ) (bs : Bytes) (b : ℕ)
    → be_value_from acc (bs ++ b ∷ []) ≡ be_value_from acc bs * 256 + b
unfolding be_value_from
be_value_from-append acc [] b = refl
be_value_from-append acc (c ∷ bs) b = be_value_from-append (acc * 256 + c) bs b

pub be_value-be_bytes : (k v : ℕ) → v < 256 ^ k → be_value_from 0 (be_bytes k v) ≡ v
unfolding be_bytes
be_value-be_bytes zero v h = unfold be_value_from in omega arith
be_value-be_bytes (suc k) v h = omega (
  arith,
  be_value_from-append 0 (be_bytes k (v / 256)) (v % 256),
  be_value-be_bytes k (v / 256) (omega (arith, pow-suc 256 k)),
)

pub Wire-uint : (k v : ℕ) → v < 256 ^ k → Wire (write_uint k v) (read_uint k) v
unfolding write_uint read_uint
Wire-uint k v h = subst (Wire (write_all (be_bytes k v)) (read_uint k)) (be_value-be_bytes k v h) (
    unfold read_uint in
    Wire-map (be_value_from 0) (Wire-bytes k (be_bytes k v) (length-be_bytes k v)))

pub Wire-u8 : (v : ℕ) → Wire (write_u8 v) read_u8 v
unfolding write_u8 read_u8
Wire-u8 v = Wire-byte v

pub Wire-bool : (b : Bool) → Wire (write_bool b) read_bool b
unfolding write_bool read_bool
Wire-bool true = Wire-map (λ v. not (v == 0)) (Wire-u8 1)
Wire-bool false = Wire-map (λ v. not (v == 0)) (Wire-u8 0)

i64_bits-lt : (z : ℤ) → IsI64 z → i64_bits z < 256 ^ 8
unfolding i64_bits
i64_bits-lt (pos n) h = omega arith
i64_bits-lt (negsuc n) h = omega arith

pub i64_of_bits-i64_bits : (z : ℤ) → IsI64 z → i64_of_bits (i64_bits z) ≡ z
unfolding i64_bits i64_of_bits
i64_of_bits-i64_bits (pos n) h = ground arith
i64_of_bits-i64_bits (negsuc n) h = ground arith

-- A signed number in the range of 64 bits travels.
pub Wire-i64 : (z : ℤ) → IsI64 z → Wire (write_i64 z) read_i64 z
unfolding write_i64 read_i64
Wire-i64 z h =
    subst (Wire (write_uint 8 (i64_bits z)) read_i64) (i64_of_bits-i64_bits z h)
      (Wire-map i64_of_bits (Wire-uint 8 (i64_bits z) (i64_bits-lt z h)))

-- An enum travels where its table takes its byte back.
pub Wire-enum :
    {A : Type 0} (e : U8ReprEnum A) (message : Text) (a : A)
    → e.from_u8 (e.into_u8 a) ≡ some a
    → Wire (write_enum e a) (read_enum e message) a
unfolding write_enum read_enum
Wire-enum e message a h = record {
  bytes = e.into_u8 a ∷ [];
  writes = λ out. unfold write_u8 write_all in refl;
  reads = λ rest. unfold read_u8 take_byte ◌>>=◌ enum_of pure in rw h;
}
