-- ===== src/Protocol/Handshake/Laws.antt =====
-- The handshake of dust-devil-core/src/sandstorm/handshake.rs and its answers, written and read.
use dust_devil.Base.{ℕ, ◌≡◌, ◌≢◌, ◌↔◌, refl, ◌∷◌, [], arith, ◌++◌}
use dust_devil.Io.{Bytes, ok}
use dust_devil.Io.Reader.{◌>>=◌, take_byte, fail, pure}
use dust_devil.Io.Writer.{write_all}
use dust_devil.Io.Wire.{Wire, Wire-bind, Wire-end}
use dust_devil.Serialize.Numbers.{write_u8, read_u8, write_enum, read_enum}
use dust_devil.Serialize.Numbers.Laws.{Wire-u8, Wire-enum}
use dust_devil.Serialize.Texts.Laws.{IsText, Wire-small_string}
use dust_devil.Protocol.Handshake.{
  SandstormHandshake, write_handshake, handshake, invalid_version, read_with_version_check,
  read_handshake, SandstormHandshakeStatus, granted, unsupported_version,
  invalid_username_or_password, permission_denied, unspecified_error, status_repr, write_status,
  read_status,
}

abbrev pub IsHandshake : SandstormHandshake → Type 0
IsHandshake h = IsText 255 h.username × IsText 255 h.password

-- A handshake with a name and a password of 255 bytes at most travels, and passes the version check.
pub Wire-checked_handshake :
    (h : SandstormHandshake)
    → IsHandshake h
    → Wire (write_handshake h) read_with_version_check (handshake h)
unfolding write_handshake read_with_version_check
Wire-checked_handshake h (hu, hp) = Wire-bind _ (Wire-u8 1) (
    Wire-bind _ (Wire-small_string h.username hu)
      (Wire-end _ (Wire-small_string h.password hp) refl))

pub Wire-handshake :
    (h : SandstormHandshake) → IsHandshake h → Wire (write_handshake h) read_handshake h
unfolding read_handshake
Wire-handshake h v = Wire-end _ (Wire-checked_handshake h v) refl

-- A handshake of another version is told apart by its first byte alone.
pub read_with_version_check_invalid :
    (v : ℕ) (rest : Bytes)
    → v ≢ 1
    → read_with_version_check (v ∷ rest) ≡ ok (invalid_version v, rest)
unfolding read_with_version_check read_u8 take_byte ◌>>=◌ pure
read_with_version_check_invalid v rest h = ground arith

-- Every answer to a handshake but UnspecifiedError travels.
pub Wire-status :
    (s : SandstormHandshakeStatus) → s ≢ unspecified_error → Wire (write_status s) read_status s
unfolding write_status read_status
Wire-status granted h = Wire-enum status_repr _ granted refl
Wire-status unsupported_version h = Wire-enum status_repr _ unsupported_version refl
Wire-status invalid_username_or_password h =
    Wire-enum status_repr _ invalid_username_or_password refl
Wire-status permission_denied h = Wire-enum status_repr _ permission_denied refl
Wire-status unspecified_error h = absurd (h refl)

-- An answer that is written is read back as it was, and what follows is left, exactly where it is not
-- UnspecifiedError.
pub read_status-write_status_iff :
    (s : SandstormHandshakeStatus) (rest : Bytes)
    → (read_status ((write_status s []).1 ++ rest) ≡ ok (s, rest)) ↔ (s ≢ unspecified_error)
unfolding write_status read_status write_enum read_enum write_u8 write_all read_u8 take_byte ◌>>=◌
    fail pure
read_status-write_status_iff granted rest = (λ _. cc, λ _. refl)
read_status-write_status_iff unsupported_version rest = (λ _. cc, λ _. refl)
read_status-write_status_iff invalid_username_or_password rest = (λ _. cc, λ _. refl)
read_status-write_status_iff permission_denied rest = (λ _. cc, λ _. refl)
read_status-write_status_iff unspecified_error rest = (λ e. cc e, λ h. absurd (h refl))
