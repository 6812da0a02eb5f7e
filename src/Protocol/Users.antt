-- ===== src/Protocol/Users.antt =====
-- dust-devil-core/src/users.rs: user roles, and the errors of loading a users file.
pub mod Laws
use dust_devil.Base.{ℕ, ◌<◌, ◌^◌, Option, none, some, List, [], ◌==◌, if◌then◌else◌}
use dust_devil.Io.{Text, text, Error, ErrorKind, error_new}
use dust_devil.Io.Reader.{Reader, ◌>>=◌, pure, fail}
use dust_devil.Io.Writer.{Writer, ◌>>◌}
use dust_devil.Serialize.Numbers.{
  U8ReprEnum, write_enum, read_enum, write_u8, read_u8, write_u32, read_u32, write_u64, read_u64,
}
use dust_devil.Serialize.Texts.{write_char, read_char}
use dust_devil.Serialize.Errors.{write_error, read_error}

abbrev pub comment_prefix_char : ℕ
comment_prefix_char = b'!'

abbrev pub admin_prefix_char : ℕ
admin_prefix_char = b'@'

abbrev pub regular_prefix_char : ℕ
regular_prefix_char = b'#'

abbrev pub escape_char : ℕ
escape_char = 92

pub data UserRole : Type 0 where
  admin regular : UserRole

unfoldable pub into_role_char : UserRole → ℕ
into_role_char admin = admin_prefix_char
into_role_char regular = regular_prefix_char

abbrev pub role_repr : U8ReprEnum UserRole
role_repr = record {
  from_u8 = λ v. if v == 1 then some admin else if v == 2 then some regular else none;
  into_u8 = elim [ admin ↦ 1 | regular ↦ 2 ];
}

unfoldable pub write_role : UserRole → Writer
write_role = write_enum role_repr

unfoldable pub read_role : Reader UserRole
read_role = read_enum role_repr (text "Invalid UserRole type byte")

pub data UsersLoadingError : Type 0 where
  io : Error → UsersLoadingError
  invalid_utf8 line_too_long : (line_number byte_at : ℕ) → UsersLoadingError
  expected_role_char_got_eof : (line_number char_at : ℕ) → UsersLoadingError
  invalid_role_char : (line_number char_at char : ℕ) → UsersLoadingError
  expected_colon_got_eof empty_username username_too_long :
      (line_number char_at : ℕ) → UsersLoadingError
  empty_password password_too_long : (line_number char_at : ℕ) → UsersLoadingError
  no_users : UsersLoadingError

-- A type byte, a line number and a position of 32 bits.
abbrev write_at : ℕ → ℕ → ℕ → Writer
write_at t line char_at = do write_u8 t; write_u32 line; write_u32 char_at

unfoldable pub write_loading_error : UsersLoadingError → Writer
write_loading_error (io e) = do write_u8 1; write_error e
write_loading_error (invalid_utf8 l b) = do write_u8 2; write_u32 l; write_u64 b
write_loading_error (line_too_long l b) = do write_u8 3; write_u32 l; write_u64 b
write_loading_error (expected_role_char_got_eof l c) = write_at 4 l c
write_loading_error (invalid_role_char l c char) = do
  write_u8 5
  write_u32 l
  write_u32 c
  write_char char
write_loading_error (expected_colon_got_eof l c) = write_at 6 l c
write_loading_error (empty_username l c) = write_at 7 l c
write_loading_error (username_too_long l c) = write_at 8 l c
write_loading_error (empty_password l c) = write_at 9 l c
write_loading_error (password_too_long l c) = write_at 10 l c
write_loading_error no_users = write_u8 11

-- Two numbers of 32 bits, given to a variant.
abbrev read_at : (ℕ → ℕ → UsersLoadingError) → Reader UsersLoadingError
read_at make = do l ← read_u32; c ← read_u32; pure (make l c)

abbrev read_at_byte : (ℕ → ℕ → UsersLoadingError) → Reader UsersLoadingError
read_at_byte make = do l ← read_u32; b ← read_u64; pure (make l b)

-- The variant of a type byte.
unfoldable pub loading_error_of : ℕ → Reader UsersLoadingError
loading_error_of t =
    if t == 1
    then (do e ← read_error; pure (io e))
    else if t == 2
    then read_at_byte invalid_utf8
    else if t == 3
    then read_at_byte line_too_long
    else if t == 4
    then read_at expected_role_char_got_eof
    else if t == 5
    then (do l ← read_u32; c ← read_u32; char ← read_char; pure (invalid_role_char l c char))
    else if t == 6
    then read_at expected_colon_got_eof
    else if t == 7
    then read_at empty_username
    else if t == 8
    then read_at username_too_long
    else if t == 9
    then read_at empty_password
    else if t == 10
    then read_at password_too_long
    else if t == 11
    then pure no_users
    else fail (error_new ErrorKind.invalid_data (text "Invalid UsersLoadingError type byte"))

unfoldable pub read_loading_error : Reader UsersLoadingError
unfolding loading_error_of
read_loading_error = do t ← read_u8; loading_error_of t
