-- ===== src/Server/UsersFile/Bounds.antt =====
-- How long the names and passwords of a users file can be.
use mathlib.Core.Path.{subst}
use dust_devil.Base.{
  ℕ, ◌≤◌, ◌<◌, ◌≡◌, refl, ap, Bool, true, false, ◌&&◌, ◌||◌, not, Option, none, some, [], ◌∷◌, ◌++◌,
  length-append, ◌==◌, leb, if◌then◌else◌, arith, Bool-cases, inl, inr,
}
use dust_devil.Io.{Text}
use dust_devil.Utf8.{encode_char, as_bytes, byte_len}
use dust_devil.Utf8.RoundTrip.{byte_len-append, length-encode_char}
use dust_devil.Protocol.Users.{
  UserRole, admin, regular, UsersLoadingError, username_too_long, escape_char,
}
use dust_devil.Serialize.Containers.{Result, ok, err}
use dust_devil.Server.Users.{UserData, add_one}
use dust_devil.Server.UsersFile.{
  is_empty, parse_username, parse_password, finish_user, parse_after_username, parse_line_into_user,
}

empty_fits : byte_len [] ≤ 258
unfolding byte_len as_bytes
empty_fits = omega arith

-- One character more on a text of less than 255 bytes.
push_bound : (acc : Text) (c : ℕ) → byte_len acc < 255 → byte_len (acc ++ c ∷ []) ≤ 258
unfolding byte_len as_bytes
push_bound acc c h = omega (
  arith,
  byte_len-append acc (c ∷ []),
  (length-encode_char c).1,
  length-append (encode_char c) [],
  h,
)

taken_bound :
    (keep : Bool) (acc : Text) (c : ℕ)
    → byte_len acc ≤ 258
    → (keep && leb 255 (byte_len acc)) ≡ false
    → byte_len (if keep then acc ++ (c ∷ []) else acc) ≤ 258
taken_bound true acc c b h = push_bound acc c (ground (arith, h))
taken_bound false acc c b h = b

name_of : Result (Text × ℕ × Text) UsersLoadingError → Text
name_of (ok (u, at, rest)) = u
name_of (err e) = []

-- The bound through the two tests at the end of a round.
round_bound :
    (over colon : Bool) (e : UsersLoadingError) (taken s : Text) (at : ℕ)
    (r : Result (Text × ℕ × Text) UsersLoadingError) (u : Text) (at2 : ℕ) (rest : Text)
    → (over ≡ false → byte_len taken ≤ 258)
    → (over ≡ false → r ≡ ok (u, at2, rest) → byte_len u ≤ 258)
    → (if over then err e else if colon then ok (taken, at, s) else r) ≡ ok (u, at2, rest)
    → byte_len u ≤ 258
unfolding name_of
round_bound true colon e taken s at r u at2 rest t k h = ground (arith, h)
round_bound false true e taken s at r u at2 rest t k h =
    subst (λ w. byte_len w ≤ 258) (ap name_of h) (t refl)
round_bound false false e taken s at r u at2 rest t k h = k refl h

parse_username_bound :
    (s : Text) (esc : Bool) (acc : Text) (l at : ℕ) (u : Text) (at2 : ℕ) (rest : Text)
    → byte_len acc ≤ 258
    → parse_username esc acc l at s ≡ ok (u, at2, rest)
    → byte_len u ≤ 258
unfolding parse_username
parse_username_bound [] esc acc l at u at2 rest b h = ground (arith, h)
parse_username_bound (c ∷ s) esc acc l at u at2 rest b h =
    let keep = esc || (not (c == escape_char) && not (c == b':')) in
    let taken = if keep then acc ++ (c ∷ []) else acc in
    let t = taken_bound keep acc c b in
    let more = not esc && (c == escape_char) in
    round_bound (keep && leb 255 (byte_len acc)) (not esc && (c == b':'))
      (username_too_long l (add_one at)) taken s (add_one at)
      (parse_username more taken l (add_one at) s) u at2 rest t
      (λ o e. parse_username_bound s more taken l (add_one at) u at2 rest (t o) e) h

password_text : Result (Text × ℕ) UsersLoadingError → Text
password_text (ok (p, at)) = p
password_text (err e) = []

parse_password_bound :
    (s : Text) (esc : Bool) (acc : Text) (l at : ℕ) (p : Text) (at2 : ℕ)
    → byte_len acc ≤ 258
    → parse_password esc acc l at s ≡ ok (p, at2)
    → byte_len p ≤ 258
unfolding parse_password password_text
parse_password_bound [] esc acc l at p at2 b h =
    subst (λ w. byte_len w ≤ 258) (ap password_text h) b
parse_password_bound (c ∷ s) esc acc l at p at2 b h =
    let keep = esc || not (c == escape_char) in
    elim (Bool-cases (keep && leb 255 (byte_len acc))) [
      | inl o ↦ ground (arith, o, h)
      | inr o ↦
          parse_password_bound s (not esc && (c == escape_char))
            (if keep then acc ++ (c ∷ []) else acc) l (add_one at) p at2
            (taken_bound keep acc c b o) (ground (arith, o, h))
    ]

IsShort : Text → Type 0
IsShort s = (is_empty s ≡ false) × (byte_len s ≤ 258)

IsShortUser : Result (Option (Text × UserData)) UsersLoadingError → Type 0
IsShortUser (ok (some (name, u))) = IsShort name × IsShort u.password
IsShortUser (ok none) = Unit
IsShortUser (err e) = Unit

finish_user-IsShortUser :
    (r : UserRole) (name : Text) (l : ℕ) (o : Result (Text × ℕ) UsersLoadingError)
    → IsShort name
    → ((p : Text) (at : ℕ) → o ≡ ok (p, at) → byte_len p ≤ 258)
    → IsShortUser (finish_user r name l o)
unfolding finish_user IsShortUser IsShort
finish_user-IsShortUser r name l (err e) n k = tt
finish_user-IsShortUser r name l (ok (p, at)) n k = elim (Bool-cases (is_empty p)) [
  | inl e ↦ simp e tt
  | inr e ↦ simp e (n, (refl, k p at refl))
]

parse_after_username-IsShortUser :
    (r : UserRole) (l : ℕ) (o : Result (Text × ℕ × Text) UsersLoadingError)
    → ((u : Text) (at : ℕ) (rest : Text) → o ≡ ok (u, at, rest) → byte_len u ≤ 258)
    → IsShortUser (parse_after_username r l o)
unfolding parse_after_username IsShortUser IsShort
parse_after_username-IsShortUser r l (err e) k = tt
parse_after_username-IsShortUser r l (ok (u, at, cs)) k = elim (Bool-cases (is_empty u)) [
  | inl e ↦ simp e tt
  | inr e ↦ simp e (
      finish_user-IsShortUser r u l (parse_password false [] l at cs) (e, k u at cs refl)
        (λ p at2 h. parse_password_bound cs false [] l at p at2 empty_fits h))
]

user-IsShortUser :
    (r : UserRole) (l at : ℕ) (cs : Text)
    → IsShortUser (parse_after_username r l (parse_username false [] l at cs))
user-IsShortUser r l at cs =
    parse_after_username-IsShortUser r l (parse_username false [] l at cs)
      (λ u at2 rest h. parse_username_bound cs false [] l at u at2 rest empty_fits h)

parse_line_into_user-IsShortUser : (s : Text) (l at : ℕ) → IsShortUser (parse_line_into_user s l at)
unfolding parse_line_into_user IsShortUser
parse_line_into_user-IsShortUser [] l at = tt
parse_line_into_user-IsShortUser (c ∷ cs) l at =
    ground
      (arith, user-IsShortUser admin l (add_one at) cs, user-IsShortUser regular l (add_one at) cs)

-- A user that a line gives has a name and a password that are not empty and of 258 bytes at most:
-- the length is tested before a character is added, so it can pass 255.
pub parse_line_into_user_bounds :
    (s : Text) (l at : ℕ) (name : Text) (u : UserData)
    → parse_line_into_user s l at ≡ ok (some (name, u))
    → ((is_empty name ≡ false) × (byte_len name ≤ 258))
      × ((is_empty u.password ≡ false) × (byte_len u.password ≤ 258))
unfolding IsShortUser IsShort
parse_line_into_user_bounds s l at name u h =
    subst IsShortUser h (parse_line_into_user-IsShortUser s l at)
