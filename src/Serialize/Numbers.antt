-- ===== src/Serialize/Numbers.antt =====
-- Numbers, booleans and the unit type of serialize.rs, and enums with a byte representation
-- (u8_repr_enum.rs). Integers are big-endian, as tokio's `write_u16` and its like write them.
pub mod Laws
use dust_devil.Base.{
  ℕ, zero, suc, ◌+◌, ◌-◌, ◌*◌, ◌/◌, ◌%◌, ◌^◌, ◌<◌, ◌≡◌, Bool, true, false, not, Option, none, some,
  List, [], ◌∷◌, ◌++◌, ltb, ◌==◌, if◌then◌else◌,
}
use dust_devil.Io.{Bytes, Text, ErrorKind, error_new}
use dust_devil.Io.Reader.{Reader, ◌>>=◌, pure, take_byte, read_exact, fail}
use dust_devil.Io.Writer.{Writer, done, write_all}

-- The `k` lowest bytes of a number, highest first.
unfoldable pub be_bytes : ℕ → ℕ → Bytes
be_bytes zero v = []
be_bytes (suc k) v = be_bytes k (v / 256) ++ v % 256 ∷ []

unfoldable pub be_value_from : ℕ → Bytes → ℕ
be_value_from acc [] = acc
be_value_from acc (b ∷ bs) = be_value_from (acc * 256 + b) bs

unfoldable pub write_uint : ℕ → ℕ → Writer
write_uint k v = write_all (be_bytes k v)

unfoldable pub read_uint : ℕ → Reader ℕ
read_uint k = do bs ← read_exact k; pure (be_value_from 0 bs)

-- `()`
abbrev pub write_unit : Unit {0} → Writer
write_unit u = done

abbrev pub read_unit : Reader (Unit {0})
read_unit = pure tt

unfoldable pub write_u8 : ℕ → Writer
write_u8 v = write_all (v ∷ [])

unfoldable pub read_u8 : Reader ℕ
read_u8 = take_byte

abbrev pub write_u16 : ℕ → Writer
write_u16 = write_uint 2

abbrev pub read_u16 : Reader ℕ
read_u16 = read_uint 2

abbrev pub write_u32 : ℕ → Writer
write_u32 = write_uint 4

abbrev pub read_u32 : Reader ℕ
read_u32 = read_uint 4

abbrev pub write_u64 : ℕ → Writer
write_u64 = write_uint 8

abbrev pub read_u64 : Reader ℕ
read_u64 = read_uint 8

-- `*self as u8`, and any byte but 0 is true.
unfoldable pub write_bool : Bool → Writer
write_bool b = write_u8 (if b then 1 else 0)

unfoldable pub read_bool : Reader Bool
read_bool = do b ← read_u8; pure (not (b == 0))

-- `negsuc n` is -(n + 1).
pub data ℤ : Type 0 where
  pos : ℕ → ℤ
  negsuc : ℕ → ℤ

abbrev pub IsI64 : ℤ → Type 0
IsI64 (pos n) = n < 2 ^ 63
IsI64 (negsuc n) = n < 2 ^ 63

-- The bit pattern of an `i64`, in two's complement, and back.
unfoldable pub i64_bits : ℤ → ℕ
i64_bits (pos n) = n
i64_bits (negsuc n) = 2 ^ 64 - 1 - n

unfoldable pub i64_of_bits : ℕ → ℤ
i64_of_bits w = if ltb w (2 ^ 63) then pos w else negsuc (2 ^ 64 - 1 - w)

unfoldable pub write_i64 : ℤ → Writer
write_i64 z = write_uint 8 (i64_bits z)

unfoldable pub read_i64 : Reader ℤ
read_i64 = do w ← read_uint 8; pure (i64_of_bits w)

-- The trait `U8ReprEnum`, and the law that an implementation is meant to keep.
pub record U8ReprEnum (A : Type 0) : Type 0 where
  pub from_u8 : ℕ → Option A
  pub into_u8 : A → ℕ

abbrev pub IsFaithful : {A : Type 0} → U8ReprEnum A → Type 0
IsFaithful {A} e = (a : A) → e.from_u8 (e.into_u8 a) ≡ some a

-- Every such enum writes its byte, and refuses a byte that stands for no variant.
unfoldable pub write_enum : {A : Type 0} → U8ReprEnum A → A → Writer
write_enum e a = write_u8 (e.into_u8 a)

unfoldable pub enum_of : {A : Type 0} → Text → Option A → Reader A
enum_of message none = fail (error_new ErrorKind.invalid_data message)
enum_of message (some a) = pure a

unfoldable pub read_enum : {A : Type 0} → U8ReprEnum A → Text → Reader A
unfolding enum_of
read_enum e message = do b ← read_u8; enum_of message (e.from_u8 b)
