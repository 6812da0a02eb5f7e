-- ===== src/Client/Args/Users/RoundTrip.antt =====
-- A user written with escapes, as the client's command line takes it (sandstorm/src/args.rs).
use mathlib.Core.Path.{subst}
use dust_devil.Base.{
  ℕ, ◌≤◌, ◌≡◌, sym, ap, Bool, false, some, [], ◌∷◌, ◌++◌, append-nil, append_assoc, arith,
}
use dust_devil.Io.{Text}
use dust_devil.Utf8.{byte_len}
use dust_devil.Serialize.Containers.{Result}
use dust_devil.Protocol.Users.{
  UserRole, admin, regular, into_role_char, admin_prefix_char, regular_prefix_char,
}
use dust_devil.Server.UsersFile.RoundTrip.{escape_text, room}
use dust_devil.Client.Args.Users.{
  is_empty, Named, take_username, take_password, with_password, with_username, parse_into_user,
}

take_username-escape :
    (s acc rest : Text)
    → byte_len (acc ++ s) ≤ 255
    → take_username false acc (escape_text s ++ b':' ∷ rest)
      ≡ Result.ok (Named.at_colon (acc ++ s) rest)
unfolding take_username escape_text
take_username-escape [] acc rest h =
    ap (λ t. Result.ok (Named.at_colon t rest)) (sym (append-nil acc))
take_username-escape (c ∷ s) acc rest h =
    let p = append_assoc acc (c ∷ []) s in
    let b = subst (λ t. byte_len t ≤ 255) (sym p) h in
    ground (arith, p, room acc c s h, take_username-escape s (acc ++ c ∷ []) rest b)

take_password-escape :
    (s acc : Text)
    → byte_len (acc ++ s) ≤ 255
    → take_password false acc (escape_text s) ≡ Result.ok (acc ++ s)
unfolding take_password escape_text
take_password-escape [] acc h = ap Result.ok (sym (append-nil acc))
take_password-escape (c ∷ s) acc h =
    let p = append_assoc acc (c ∷ []) s in
    let b = subst (λ t. byte_len t ≤ 255) (sym p) h in
    ground (arith, p, room acc c s h, take_password-escape s (acc ++ c ∷ []) b)

with_user :
    (role : UserRole) (name password : Text)
    → is_empty name ≡ false
    → is_empty password ≡ false
    → byte_len name ≤ 255
    → byte_len password ≤ 255
    → with_username
        (some role)
        (take_username false [] (escape_text name ++ b':' ∷ escape_text password))
      ≡ Result.ok (name, some password, some role)
unfolding with_username with_password
with_user role name password n p h k = ground (
  arith,
  n,
  p,
  take_username-escape name [] (escape_text password) h,
  take_password-escape password [] k,
)

-- A user's role character, the name with its colons and backslashes escaped, a colon and the password
-- escaped in the same way are parsed into this name, password and role, where both have 1 to 255 bytes
-- and the role characters are not alphanumeric.
pub parse_into_user-escape :
    (is_alphanumeric : ℕ → Bool) (role : UserRole) (name password : Text)
    → is_alphanumeric admin_prefix_char ≡ false
    → is_alphanumeric regular_prefix_char ≡ false
    → is_empty name ≡ false
    → is_empty password ≡ false
    → byte_len name ≤ 255
    → byte_len password ≤ 255
    → parse_into_user is_alphanumeric
        (into_role_char role ∷ escape_text name ++ b':' ∷ escape_text password)
      ≡ Result.ok (name, some password, some role)
unfolding parse_into_user into_role_char escape_text
parse_into_user-escape is_alphanumeric admin name password a r n p h k =
    rw a (with_user admin name password n p h k)
parse_into_user-escape is_alphanumeric regular name password a r n p h k =
    rw r (with_user regular name password n p h k)
