-- ===== src/Protocol/Handshake.antt =====
-- dust-devil-core/src/sandstorm/handshake.rs: the client's handshake and the server's answer.
pub mod Laws
use dust_devil.Base.{ℕ, Option, none, some, ◌++◌, ◌==◌, not, if◌then◌else◌}
use dust_devil.Io.{Text, text, Bytes, Error, ErrorKind, error_new, show_u8, Outcome, ok, eof, err}
use dust_devil.Io.Reader.{Reader, ◌>>=◌, pure, fail}
use dust_devil.Io.Writer.{Writer, ◌>>◌}
use dust_devil.Serialize.Numbers.{U8ReprEnum, write_enum, read_enum, write_u8, read_u8}
use dust_devil.Serialize.Texts.{write_small_string, read_small_string}

pub record SandstormHandshake : Type 0 where
  pub username : Text
  pub password : Text

unfoldable pub write_handshake : SandstormHandshake → Writer
write_handshake h = do write_u8 1; write_small_string h.username; write_small_string h.password

-- `Result<SandstormHandshake, ParseHandshakeError>`, but for `ParseHandshakeError::IO`, which is
-- the reader's own failure.
pub data VersionChecked : Type 0 where
  handshake : SandstormHandshake → VersionChecked
  invalid_version : ℕ → VersionChecked

unfoldable pub version_checked : ℕ → Reader VersionChecked
version_checked version = if not (version == 1) then pure (invalid_version version) else do
  username ← read_small_string
  password ← read_small_string
  pure (handshake (record { username = username; password = password }))

unfoldable pub read_with_version_check : Reader VersionChecked
unfolding version_checked
read_with_version_check = do version ← read_u8; version_checked version

unfoldable pub handshake_of : VersionChecked → Reader SandstormHandshake
handshake_of (handshake h) = pure h
handshake_of (invalid_version v) =
    fail (error_new ErrorKind.invalid_input (text "Invalid Sandstorm version: " ++ show_u8 v))

unfoldable pub read_handshake : Reader SandstormHandshake
unfolding handshake_of
read_handshake = do r ← read_with_version_check; handshake_of r

pub data SandstormHandshakeStatus : Type 0 where
  granted unsupported_version invalid_username_or_password : SandstormHandshakeStatus
  permission_denied unspecified_error : SandstormHandshakeStatus

abbrev pub status_repr : U8ReprEnum SandstormHandshakeStatus
status_repr = record {
  from_u8 = λ v.
      if v == 0
      then some granted
      else if v == 1
      then some unsupported_version
      else if v == 2
      then some invalid_username_or_password
      else if v == 3
      then some permission_denied
      else none;
  into_u8 = elim [
    | granted ↦ 0
    | unsupported_version ↦ 1
    | invalid_username_or_password ↦ 2
    | permission_denied ↦ 3
    | unspecified_error ↦ 0xff
  ];
}

unfoldable pub write_status : SandstormHandshakeStatus → Writer
write_status = write_enum status_repr

unfoldable pub read_status : Reader SandstormHandshakeStatus
read_status = read_enum status_repr (text "Invalid SandstormHandshakeStatus type byte")
