-- ===== src/Client/Args/Users.antt =====
-- sandstorm/src/args.rs: a user as it is written on the command line, `parse_into_user`.
pub mod RoundTrip
use dust_devil.Base.{
  ℕ, ◌+◌, Bool, true, false, ◌&&◌, ◌||◌, not, Option, none, some, List, [], ◌∷◌, ◌++◌, ◌==◌, leb,
  if◌then◌else◌,
}
use dust_devil.Io.{Text}
use dust_devil.Utf8.{byte_len}
use dust_devil.Serialize.Containers.{Result}
use dust_devil.Protocol.Users.{
  UserRole, admin, regular, admin_prefix_char, regular_prefix_char, escape_char,
}

pub data ParseIntoUserError : Type 0 where
  empty : ParseIntoUserError
  invalid_role_char : (c : ℕ) → ParseIntoUserError
  empty_username username_too_long empty_password password_too_long : ParseIntoUserError

abbrev pub is_empty : Text → Bool
is_empty [] = true
is_empty (c ∷ s) = false

-- What the loop over the name ends with: the text has no colon, or this is behind it.
pub data Named : Type 0 where
  at_end : Text → Named
  at_colon : Text → (rest : Text) → Named

-- The loop over the name.
unfoldable pub take_username :
    (escape_next : Bool) (username : Text) → Text → Result Named ParseIntoUserError
take_username escape_next username [] =
    if is_empty username
    then Result.err ParseIntoUserError.empty_username
    else Result.ok (Named.at_end username)
take_username escape_next username (c ∷ cs) =
    let keep = escape_next || (not (c == escape_char) && not (c == b':')) in
    let taken = if keep then username ++ c ∷ [] else username in
    let rest = take_username (not escape_next && (c == escape_char)) taken cs in
    if keep && leb 255 (byte_len username)
    then Result.err ParseIntoUserError.username_too_long
    else if not escape_next && (c == b':')
    then Result.ok (Named.at_colon taken cs)
    else rest

-- The loop over the password.
unfoldable pub take_password :
    (escape_next : Bool) (password : Text) → Text → Result Text ParseIntoUserError
take_password escape_next password [] = Result.ok password
take_password escape_next password (c ∷ cs) =
    let keep = escape_next || not (c == escape_char) in
    let taken = if keep then password ++ c ∷ [] else password in
    let rest = take_password (not escape_next && (c == escape_char)) taken cs in
    if keep && leb 255 (byte_len password)
    then Result.err ParseIntoUserError.password_too_long
    else rest

abbrev pub User : Type 0
User = Text × Option Text × Option UserRole

unfoldable pub with_password :
    Text → Option UserRole → Result Text ParseIntoUserError → Result User ParseIntoUserError
with_password username role (Result.err e) = Result.err e
with_password username role (Result.ok password) =
    if is_empty password
    then Result.err ParseIntoUserError.empty_password
    else Result.ok (username, some password, role)

unfoldable pub with_username :
    Option UserRole → Result Named ParseIntoUserError → Result User ParseIntoUserError
unfolding with_password take_password
with_username role (Result.err e) = Result.err e
with_username role (Result.ok (Named.at_end username)) = Result.ok (username, none, role)
with_username role (Result.ok (Named.at_colon username rest)) =
    if is_empty username
    then Result.err ParseIntoUserError.empty_username
    else with_password username role (take_password false [] rest)

-- `char::is_alphanumeric`, of Unicode's tables, is not the program's.
module _ (is_alphanumeric : ℕ → Bool) where
  unfoldable pub parse_into_user : Text → Result User ParseIntoUserError
  unfolding with_username take_username
  parse_into_user [] = Result.err ParseIntoUserError.empty
  parse_into_user (c ∷ cs) =
      if is_alphanumeric c
      then with_username none (take_username false (c ∷ []) cs)
      else if c == admin_prefix_char
      then with_username (some admin) (take_username false [] cs)
      else if c == regular_prefix_char
      then with_username (some regular) (take_username false [] cs)
      else if c == escape_char
      then with_username none (take_username true [] cs)
      else Result.err (ParseIntoUserError.invalid_role_char c)
