-- ===== src/Server/UsersFile/RoundTrip.antt =====
-- How the loader of the users file reads the names that the saver escapes, and passwords.
use dust_devil.Base.{
  ℕ, ◌≤◌, ◌<◌, ◌≡◌, refl, sym, ap, Bool, true, false, ◌||◌, [], ◌∷◌, ◌++◌, ◌==◌, if◌then◌else◌,
  arith, All, append_assoc, append-nil, Bool-cases, inl, inr,
}
use mathlib.Core.Path.{subst}
use dust_devil.Io.{Text, Bytes}
use dust_devil.Utf8.{IsChar, encode_char, as_bytes, byte_len}
use dust_devil.Utf8.RoundTrip.{byte_len-append, byte_len-cons}
use dust_devil.Protocol.Users.{escape_char}
use dust_devil.Serialize.Containers.{ok}
use dust_devil.Server.Users.{add_one}
use dust_devil.Server.UsersFile.{parse_username, parse_password, escape_bytes}

-- The escapes of `save_to`, on characters.
unfoldable pub escape_text : Text → Text
escape_text [] = []
escape_text (c ∷ s) =
    if (c == b'\\') || (c == b':') then b'\\' ∷ c ∷ escape_text s else c ∷ escape_text s

-- The position after some characters.
abbrev pub after : Text → ℕ → ℕ
after [] at = at
after (c ∷ s) at = after s (add_one at)

escape_bytes-char :
    (c : ℕ) (bs : Bytes)
    → IsChar c
    → escape_bytes (encode_char c ++ bs) ≡ (
        if (c == b'\\') || (c == b':')
        then b'\\' ∷ c ∷ escape_bytes bs
        else encode_char c ++ escape_bytes bs)
unfolding escape_bytes encode_char
escape_bytes-char c bs h = ground arith

pub escape_bytes-as_bytes :
    (s : Text) → All IsChar s → escape_bytes (as_bytes s) ≡ as_bytes (escape_text s)
unfolding escape_text escape_bytes as_bytes encode_char
escape_bytes-as_bytes [] h = refl
escape_bytes-as_bytes (c ∷ s) h =
    ground (arith, escape_bytes-char c (as_bytes s) h.0, escape_bytes-as_bytes s h.1)

-- There is room for the next character of a text that fits.
pub room : (acc : Text) (c : ℕ) (s : Text) → byte_len (acc ++ c ∷ s) ≤ 255 → byte_len acc < 255
room acc c s h = omega (arith, byte_len-append acc (c ∷ s), byte_len-cons c s, h)

pub parse_username-escape :
    (s acc rest : Text) (l at : ℕ)
    → byte_len (acc ++ s) ≤ 255
    → parse_username false acc l at (escape_text s ++ b':' ∷ rest)
      ≡ ok (acc ++ s, add_one (after (escape_text s) at), rest)
unfolding parse_username escape_text
parse_username-escape [] acc rest l at h = ap (λ t. ok (t, add_one at, rest)) (sym (append-nil acc))
parse_username-escape (c ∷ s) acc rest l at h =
    let p = append_assoc acc (c ∷ []) s in
    let b = subst (λ t. byte_len t ≤ 255) (sym p) h in
    ground (
      arith,
      p,
      room acc c s h,
      parse_username-escape s (acc ++ c ∷ []) rest l (add_one at) b,
      parse_username-escape s (acc ++ c ∷ []) rest l (add_one (add_one at)) b,
    )

-- A password as the reader takes it, its escapes resolved.
unfoldable pub unescape : (escape_next : Bool) → Text → Text
unescape escape_next [] = []
unescape true (c ∷ s) = c ∷ unescape false s
unescape false (c ∷ s) = if c == escape_char then unescape true s else c ∷ unescape false s

pub unescape_escape :
    (c : ℕ) (s : Text) → (c == escape_char) ≡ true → unescape false (c ∷ s) ≡ unescape true s
unfolding unescape
unescape_escape c s e = ground (arith, e)

pub unescape_plain :
    (c : ℕ) (s : Text) → (c == escape_char) ≡ false → unescape false (c ∷ s) ≡ c ∷ unescape false s
unfolding unescape
unescape_plain c s e = ground (arith, e)

pub parse_password-unescape :
    (escape_next : Bool) (s acc : Text) (l at : ℕ)
    → byte_len (acc ++ unescape escape_next s) ≤ 255
    → parse_password escape_next acc l at s ≡ ok (acc ++ unescape escape_next s, after s at)
unfolding parse_password unescape
parse_password-unescape esc [] acc l at h = ap (λ t. ok (t, at)) (sym (append-nil acc))
parse_password-unescape true (c ∷ s) acc l at h =
    let p = append_assoc acc (c ∷ []) (unescape false s) in
    let b = subst (λ t. byte_len t ≤ 255) (sym p) h in
    ground (
      arith,
      p,
      room acc c (unescape false s) h,
      parse_password-unescape false s (acc ++ c ∷ []) l (add_one at) b,
    )
parse_password-unescape false (c ∷ s) acc l at h = elim (Bool-cases (c == escape_char)) [
  | inl e ↦
      let b = subst (λ t. byte_len (acc ++ t) ≤ 255) (unescape_escape c s e) h in
      ground (arith, e, parse_password-unescape true s acc l (add_one at) b)
  | inr n ↦
      let q = unescape_plain c s n in
      let p = append_assoc acc (c ∷ []) (unescape false s) in
      let k = subst (λ t. byte_len (acc ++ t) ≤ 255) q h in
      let b = subst (λ t. byte_len t ≤ 255) (sym p) k in
      ground (
        arith,
        n,
        p,
        room acc c (unescape false s) k,
        parse_password-unescape false s (acc ++ c ∷ []) l (add_one at) b,
      )
]
