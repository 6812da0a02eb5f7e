-- ===== src/Server/UsersFile/SaveLoad.antt =====
-- A user that is saved to the users file, and loaded from it again.
use dust_devil.Base.{
  ℕ, ◌%◌, ◌^◌, ◌≤◌, ◌≡◌, ◌≢◌, ◌↔◌, refl, sym, ap, ◌∙◌, Bool, true, false, Option, none, some, [],
  ◌∷◌, ◌++◌, length, ◌==◌, arith, All, Bool-cases, inl, inr, All-append,
}
use dust_devil.Io.{Text}
use dust_devil.Utf8.{IsChar, encode_char, as_bytes, byte_len, from_utf8}
use dust_devil.Utf8.RoundTrip.{as_bytes-append, from_utf8-as_bytes}
use dust_devil.Protocol.Users.{
  UserRole, UsersLoadingError, admin, regular, into_role_char, escape_char,
}
use dust_devil.Serialize.Containers.{Result, ok}
use dust_devil.Server.Users.{UserData, add_one}
use dust_devil.Server.UsersFile.{
  is_empty, parse_username, parse_password, finish_user, parse_after_username, parse_line_into_user,
  save_user,
}
use dust_devil.Server.UsersFile.RoundTrip.{
  escape_text, unescape, escape_bytes-as_bytes, parse_username-escape, parse_password-unescape,
  unescape_escape, unescape_plain,
}

-- The line of a user, as characters.
abbrev pub line_of : Text → UserData → Text
line_of username user = into_role_char user.role ∷ escape_text username ++ b':' ∷ user.password

-- A user that the file can hold: a name and a password that are not empty and of 255 bytes at
-- most.
pub record IsStorable (username : Text) (user : UserData) : Type 0 where
  pub name_chars : All IsChar username
  pub password_chars : All IsChar user.password
  pub name_given : is_empty username ≡ false
  pub password_given : is_empty (unescape false user.password) ≡ false
  pub name_fits : byte_len username ≤ 255
  pub password_fits : byte_len (unescape false user.password) ≤ 255

escape_text-IsChar : (s : Text) → All IsChar s → All IsChar (escape_text s)
unfolding escape_text
escape_text-IsChar [] h = tt
escape_text-IsChar (c ∷ s) h = ground (arith, h.0, escape_text-IsChar s h.1)

role_char_lem :
    (r : UserRole)
    → (into_role_char r % 2 ^ 8 ≡ into_role_char r)
      × (encode_char (into_role_char r) ≡ into_role_char r ∷ [])
      × IsChar (into_role_char r)
unfolding into_role_char encode_char
role_char_lem admin = (refl, refl, inl (omega arith))
role_char_lem regular = (refl, refl, inl (omega arith))

save_user-line_of :
    (name : Text) (u : UserData) → All IsChar name → save_user (name, u) ≡ as_bytes (line_of name u)
unfolding save_user as_bytes encode_char
save_user-line_of name u h =
    let r = role_char_lem u.role in
    ground (
      arith,
      r.0,
      r.1,
      escape_bytes-as_bytes name h,
      as_bytes-append (escape_text name) (b':' ∷ u.password),
    )

line_of-IsChar : (name : Text) (u : UserData) → IsStorable name u → All IsChar (line_of name u)
line_of-IsChar name u h = (
  (role_char_lem u.role).2,
  All-append IsChar (escape_text name) (b':' ∷ u.password) (escape_text-IsChar name h.name_chars)
      (inl (omega arith), h.password_chars),
)

parse_line_into_user-role :
    (r : UserRole) (cs : Text) (l at : ℕ)
    → parse_line_into_user (into_role_char r ∷ cs) l at
      ≡ parse_after_username r l (parse_username false [] l (add_one at) cs)
unfolding parse_line_into_user into_role_char
parse_line_into_user-role admin cs l at = refl
parse_line_into_user-role regular cs l at = refl

parse_after_username_lem :
    (r : UserRole) (name pw taken : Text) (l at at2 : ℕ)
    → is_empty name ≡ false
    → is_empty taken ≡ false
    → parse_password false [] l at pw ≡ ok (taken, at2)
    → parse_after_username r l (ok (name, at, pw))
      ≡ ok (some (name, record { password = taken; role = r }))
unfolding parse_after_username finish_user
parse_after_username_lem r name pw taken l at at2 n t e = simp (n, t, e)

parse_line_into_user-line_of :
    (name : Text) (u : UserData) (l at : ℕ)
    → IsStorable name u
    → parse_line_into_user (line_of name u) l at
      ≡ ok (some (name, record { password = unescape false u.password; role = u.role }))
parse_line_into_user-line_of name u l at h =
    parse_line_into_user-role u.role (escape_text name ++ b':' ∷ u.password) l at
    ∙ ap (parse_after_username u.role l)
        (parse_username-escape name [] u.password l (add_one at) h.name_fits)
    ∙ parse_after_username_lem u.role name u.password (unescape false u.password) l _ _ h.name_given
        h.password_given (parse_password-unescape false u.password [] l _ h.password_fits)

pub from_utf8-save_user :
    (name : Text) (u : UserData)
    → IsStorable name u
    → from_utf8 (save_user (name, u)) ≡ some (line_of name u)
from_utf8-save_user name u h =
    ap from_utf8 (save_user-line_of name u h.name_chars)
    ∙ from_utf8-as_bytes (line_of name u) (line_of-IsChar name u h)

-- The bytes that `save_to` writes for a user are UTF-8, and `parse_line_into_user` takes from them
-- the same name and role, and the password with its escapes resolved.
parse_line_into_user-save_user :
    (name : Text) (u : UserData) (l at : ℕ)
    → IsStorable name u
    → (line : Text) × (from_utf8 (save_user (name, u)) ≡ some line)
      × (parse_line_into_user line l at
          ≡ ok (some (name, record { password = unescape false u.password; role = u.role })))
parse_line_into_user-save_user name u l at h =
    (line_of name u, from_utf8-save_user name u h, parse_line_into_user-line_of name u l at h)

length-unescape : (e : Bool) (s : Text) → length (unescape e s) ≤ length s
unfolding unescape
length-unescape e [] = omega arith
length-unescape true (c ∷ s) = omega (arith, length-unescape false s)
length-unescape false (c ∷ s) = ground (arith, length-unescape false s, length-unescape true s)

tail : Text → Text
tail [] = []
tail (c ∷ s) = s

-- A password without escapes to resolve has no backslash.
pub unescape_iff : (s : Text) → (unescape false s ≡ s) ↔ All (λ c. c ≢ escape_char) s
unfolding unescape tail
unescape_iff [] = (λ _. tt, λ _. refl)
unescape_iff (c ∷ s) = elim (Bool-cases (c == escape_char)) [
  | inl e ↦ (
    λ h. ground (arith, e, length-unescape true s, ap length (sym (unescape_escape c s e) ∙ h)),
    λ h. ground (arith, e, h.0),
  )
  | inr n ↦ (
    λ h. (λ q. ground (arith, n, q), (unescape_iff s).0 (ap tail (sym (unescape_plain c s n) ∙ h))),
    λ h. ground (arith, n, (unescape_iff s).1 h.1),
  )
]

line_unique :
    (name : Text) (u : UserData) (line : Text)
    → IsStorable name u
    → from_utf8 (save_user (name, u)) ≡ some line
    → line_of name u ≡ line
line_unique name u line h e =
    ap (elim [ none ↦ [] | some t ↦ t ]) (sym (from_utf8-save_user name u h) ∙ e)

password_of : Result (Option (Text × UserData)) UsersLoadingError → Text
password_of (ok (some (name, u))) = u.password
password_of _ = []

-- A user that the file can hold is read back as it was saved exactly where its password has no
-- backslash: `save_to` does not escape passwords.
pub parse_line_into_user-save_user_iff :
    (name : Text) (u : UserData) (l at : ℕ) (line : Text)
    → IsStorable name u
    → from_utf8 (save_user (name, u)) ≡ some line
    → (parse_line_into_user line l at ≡ ok (some (name, u))) ↔ All (λ c. c ≢ escape_char) u.password
unfolding password_of
parse_line_into_user-save_user_iff name u l at line h e =
    let same =
      ap (λ t. parse_line_into_user t l at) (sym (line_unique name u line h e))
      ∙ parse_line_into_user-line_of name u l at h in
    (
      λ p. (unescape_iff u.password).0 (ap password_of (sym same ∙ p)),
      λ a. same ∙ (λ i.
          ok (some (name, record { password = (unescape_iff u.password).1 a i; role = u.role }))),
    )
