-- ===== src/Server/UsersFile.antt =====
-- The users file of dust-devil/src/users.rs: one line for each user, `@` or `#`, the name with
-- escapes, a colon and the password.
pub mod RoundTrip
pub mod SaveLoad
pub mod Bounds
use dust_devil.Base.{
  ℕ, ◌+◌, ◌-◌, ◌%◌, ◌^◌, Bool, true, false, ◌&&◌, ◌||◌, not, Option, none, some, List, [], ◌∷◌,
  ◌++◌, length, ◌==◌, leb, ltb, if◌then◌else◌,
}
use dust_devil.Io.{Text, Bytes}
use dust_devil.Utf8.{byte_len, as_bytes, is_whitespace}
use dust_devil.Protocol.Users.{
  UserRole, admin, regular, UsersLoadingError, expected_role_char_got_eof, invalid_role_char,
  expected_colon_got_eof, empty_username, username_too_long, empty_password, password_too_long,
  no_users, into_role_char, comment_prefix_char, admin_prefix_char, regular_prefix_char,
  escape_char,
}
use dust_devil.Serialize.Containers.{Result, ok, err}
use dust_devil.Server.Table.{Table, lookup, put}
use dust_devil.Server.Users.{UserData, UserManager, is_admin, add_one, sub_one}

abbrev pub is_empty : Text → Bool
is_empty [] = true
is_empty (c ∷ s) = false

-- The loop over the characters of the name, up to the colon: the name, the position, and the
-- characters behind the colon.
unfoldable pub parse_username :
    (escape_next : Bool) (username : Text) (line_number char_at : ℕ)
    → Text
    → Result (Text × ℕ × Text) UsersLoadingError
parse_username escape_next username l at [] = err (expected_colon_got_eof l at)
parse_username escape_next username l at (c ∷ cs) =
    let keep = escape_next || (not (c == escape_char) && not (c == b':')) in
    let taken = if keep then username ++ (c ∷ []) else username in
    let rest = parse_username (not escape_next && (c == escape_char)) taken l (add_one at) cs in
    if keep && leb 255 (byte_len username)
    then err (username_too_long l (add_one at))
    else if not escape_next && (c == b':')
    then ok (taken, add_one at, cs)
    else rest

-- The loop over the characters of the password, to the end of the line.
unfoldable pub parse_password :
    (escape_next : Bool) (password : Text) (line_number char_at : ℕ)
    → Text
    → Result (Text × ℕ) UsersLoadingError
parse_password escape_next password l at [] = ok (password, at)
parse_password escape_next password l at (c ∷ cs) =
    let keep = escape_next || not (c == escape_char) in
    let taken = if keep then password ++ (c ∷ []) else password in
    let rest = parse_password (not escape_next && (c == escape_char)) taken l (add_one at) cs in
    if keep && leb 255 (byte_len password) then err (password_too_long l (add_one at)) else rest

unfoldable pub finish_user :
    UserRole
    → Text
    → ℕ
    → Result (Text × ℕ) UsersLoadingError
    → Result (Option (Text × UserData)) UsersLoadingError
finish_user role username l (err e) = err e
finish_user role username l (ok (password, at)) =
    if is_empty password
    then err (empty_password l at)
    else ok (some (username, record { password = password; role = role }))

unfoldable pub parse_after_username :
    UserRole
    → ℕ
    → Result (Text × ℕ × Text) UsersLoadingError
    → Result (Option (Text × UserData)) UsersLoadingError
unfolding finish_user parse_password
parse_after_username role l (err e) = err e
parse_after_username role l (ok (username, at, cs)) =
    if is_empty username
    then err (empty_username l at)
    else finish_user role username l (parse_password false [] l at cs)

unfoldable pub parse_line_into_user :
    Text → (line_number char_at : ℕ) → Result (Option (Text × UserData)) UsersLoadingError
unfolding parse_after_username parse_username
parse_line_into_user [] l at = err (expected_role_char_got_eof l at)
parse_line_into_user (c ∷ cs) l at =
    let user = λ (role : UserRole).
      parse_after_username role l (parse_username false [] l (add_one at) cs) in
    if c == comment_prefix_char
    then ok none
    else if c == admin_prefix_char
    then user admin
    else if c == regular_prefix_char
    then user regular
    else err (invalid_role_char l (add_one at) c)

-- The loop that skips whitespace byte by byte with `&s[1..]`; `none` where that slice panics,
-- inside a character of several bytes.
unfoldable pub trim_start : Text → ℕ → Option (Text × ℕ)
trim_start [] at = some ([], at)
trim_start (c ∷ s) at =
    let rest = trim_start s (add_one at) in
    if is_whitespace c then (if ltb c 0x80 then rest else none) else some (c ∷ s, at)

-- The name and the role character as bytes, with the escapes that `save_to` writes.
unfoldable pub escape_bytes : Bytes → Bytes
escape_bytes [] = []
escape_bytes (b ∷ bs) =
    if (b == b'\\') || (b == b':') then b'\\' ∷ b ∷ escape_bytes bs else b ∷ escape_bytes bs

-- The bytes of one user in the file.
unfoldable pub save_user : Text × UserData → Bytes
unfolding escape_bytes
save_user (username, user) =
    into_role_char user.role % 2 ^ 8 ∷ escape_bytes (as_bytes username)
    ++ b':' ∷ as_bytes user.password
