-- ===== src/Protocol/Users/Laws.antt =====
-- Round trips of the types of users.rs.
use dust_devil.Base.{◌<◌, ◌^◌, ◌≡◌, refl}
use dust_devil.Io.Reader.{Reader, ◌>>=◌, pure}
use dust_devil.Io.Writer.{Writer, ◌>>◌}
use dust_devil.Io.Wire.{Wire-first, Wire-last, Wire, Wire-bind, Wire-end}
use dust_devil.Utf8.{IsChar}
use dust_devil.Serialize.Numbers.{IsFaithful}
use dust_devil.Serialize.Numbers.Laws.{Wire-u8, Wire-enum}
use dust_devil.Serialize.Texts.Laws.{IsText}
use dust_devil.Serialize.Errors.Laws.{error_seen}
use dust_devil.Serialize.Rules.{wire_rules}
use dust_devil.Protocol.Users.{
  UserRole, admin, regular, role_repr, write_role, read_role, UsersLoadingError, io, invalid_utf8,
  line_too_long, expected_role_char_got_eof, invalid_role_char, expected_colon_got_eof,
  empty_username, username_too_long, empty_password, password_too_long, no_users,
  write_loading_error, read_loading_error,
}

role_repr-IsFaithful : IsFaithful role_repr
role_repr-IsFaithful admin = refl
role_repr-IsFaithful regular = refl

pub Wire-role : (r : UserRole) → Wire (write_role r) read_role r
unfolding write_role read_role
Wire-role r = Wire-enum role_repr _ r (role_repr-IsFaithful r)

module _ {B : Type 0} {w : Writer} {b : B} where
  pub role_first :
      (f : UserRole → Reader B) (v : UserRole)
      → Wire w (f v) b
      → Wire (write_role v >> w) (read_role >>= f) b
  role_first f v p = Wire-first Wire-role f v p

module _ {B : Type 0} {b : B} where
  pub role_last :
      (f : UserRole → Reader B) (v : UserRole)
      → f v ≡ pure b
      → Wire (write_role v) (read_role >>= f) b
  role_last f v e = Wire-last Wire-role f v e

-- What the Rust types promise of the values inside, and the error that the reader sees.
abbrev pub IsLoadingError : UsersLoadingError → Type 0
IsLoadingError (io e) = IsText 65535 e.message
IsLoadingError (invalid_utf8 l b) = (l < 256 ^ 4) × (b < 256 ^ 8)
IsLoadingError (line_too_long l b) = (l < 256 ^ 4) × (b < 256 ^ 8)
IsLoadingError (expected_role_char_got_eof l c) = (l < 256 ^ 4) × (c < 256 ^ 4)
IsLoadingError (invalid_role_char l c char) = (l < 256 ^ 4) × (c < 256 ^ 4) × IsChar char
IsLoadingError (expected_colon_got_eof l c) = (l < 256 ^ 4) × (c < 256 ^ 4)
IsLoadingError (empty_username l c) = (l < 256 ^ 4) × (c < 256 ^ 4)
IsLoadingError (username_too_long l c) = (l < 256 ^ 4) × (c < 256 ^ 4)
IsLoadingError (empty_password l c) = (l < 256 ^ 4) × (c < 256 ^ 4)
IsLoadingError (password_too_long l c) = (l < 256 ^ 4) × (c < 256 ^ 4)
IsLoadingError no_users = Unit {0}

unfoldable pub loading_error_seen : UsersLoadingError → UsersLoadingError
loading_error_seen (io e) = io (error_seen e)
loading_error_seen e = e

-- An error of loading users, its numbers in range, travels, but for the kind of an I/O error inside,
-- which arrives as `error_seen` says.
pub Wire-loading_error :
    (e : UsersLoadingError)
    → IsLoadingError e
    → Wire (write_loading_error e) read_loading_error (loading_error_seen e)
unfolding write_loading_error read_loading_error loading_error_seen
Wire-loading_error no_users h = Wire-end _ (Wire-u8 11) refl
Wire-loading_error e h = Wire-bind _ (Wire-u8 _) (search wire_rules depth 9)
