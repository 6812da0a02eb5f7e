-- ===== src/Serialize/Rules.antt =====
-- The rules by which `search` proves that the two do blocks of a type fit.
use dust_devil.Base.{ℕ, ◌≡◌, refl, Bool}
use dust_devil.Io.Reader.{Reader, ◌>>=◌, pure}
use dust_devil.Io.Writer.{Writer, ◌>>◌}
use dust_devil.Io.Wire.{Wire, Wire-bind, Wire-end, Wire-first, Wire-last}
use dust_devil.Serialize.Numbers.{write_u8, read_u8, write_bool, read_bool}
use dust_devil.Serialize.Numbers.Laws.{Wire-u8, Wire-uint, Wire-bool, Wire-i64}
use dust_devil.Serialize.Texts.Laws.{Wire-char, Wire-string, Wire-small_string}
use dust_devil.Serialize.Addresses.Laws.{Wire-ipv4, Wire-ipv6, Wire-socket_addr}
use dust_devil.Serialize.Errors.Laws.{Wire-error}

module _ {B : Type 0} {w : Writer} {b : B} where
  pub u8_first :
      (f : ℕ → Reader B) (v : ℕ) → Wire w (f v) b → Wire (write_u8 v >> w) (read_u8 >>= f) b
  u8_first f v p = Wire-first Wire-u8 f v p

  pub bool_first :
      (f : Bool → Reader B) (v : Bool)
      → Wire w (f v) b
      → Wire (write_bool v >> w) (read_bool >>= f) b
  bool_first f v p = Wire-first Wire-bool f v p

module _ {B : Type 0} {b : B} where
  pub u8_last : (f : ℕ → Reader B) (v : ℕ) → f v ≡ pure b → Wire (write_u8 v) (read_u8 >>= f) b
  u8_last f v e = Wire-last Wire-u8 f v e

  pub bool_last :
      (f : Bool → Reader B) (v : Bool) → f v ≡ pure b → Wire (write_bool v) (read_bool >>= f) b
  bool_last f v e = Wire-last Wire-bool f v e

pub ruleset wire_rules = (
  u8_first, u8_last, bool_first, bool_last, Wire-bind, Wire-end, refl, Wire-u8, Wire-uint,
  Wire-bool, Wire-i64, Wire-char, Wire-string, Wire-small_string, Wire-ipv4, Wire-ipv6,
  Wire-socket_addr, Wire-error,
)
