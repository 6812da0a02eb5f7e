-- ===== src/Server/Socks/Auth.antt =====
-- Username and password authentication of socks5 clients (dust-devil/src/socks5/auth.rs), with the
-- strings of dust-devil/src/utils/chunk_reader.rs.
use dust_devil.Base.{
  ℕ, ◌≡◌, ◌≢◌, ◌↔◌, refl, sym, ap, ◌∙◌, Bool, true, false, not, Option, none, some, [], ◌∷◌, ◌++◌,
  ◌==◌, if◌then◌else◌, arith, append_assoc, All, Option-cases, inl, inr,
}
use dust_devil.Io.{Bytes, Text, text, ok}
use dust_devil.Io.Reader.{Reader, ◌>>=◌, continue, pure, read_exact, take_byte}
use dust_devil.Io.Wire.{read_exact-append}
use dust_devil.Utf8.{IsChar, as_bytes, byte_len, from_utf8}
use dust_devil.Utf8.RoundTrip.{from_utf8-as_bytes}
use dust_devil.Serialize.Numbers.{read_u8}
use dust_devil.Serialize.Texts.{checked_utf8}
use dust_devil.Serialize.Texts.Laws.{IsText}
use dust_devil.Protocol.Users.{UserRole}
use dust_devil.Protocol.Events.{
  EventData, client_requested_unsupported_userpass_version, client_authenticated_with_userpass,
}
use dust_devil.Server.Users.{UserManager, try_login}
use dust_devil.Server.Users.Lookup.{find, try_login_iff, has_password, try_login_lem}

unfoldable pub read_chunked_utf8_string : Reader Text
read_chunked_utf8_string = do
  n ← read_u8
  bytes ← read_exact n
  checked_utf8 (text "String is not valid UTF-8") (from_utf8 bytes)

abbrev is_login : Option UserRole → Bool
is_login (some r) = true
is_login none = false

-- `ClientContext::try_login`.
unfoldable pub client_login : Text → Text → UserManager → Bool
client_login username password m = is_login (try_login username password m)

pub client_login_lem :
    (username password : Text) (m : UserManager)
    → client_login username password m ≡ has_password (find username m) password
unfolding client_login
client_login_lem username password m = try_login_lem is_login username password m refl (λ r. refl)

-- How the authentication ends: its status, the event for the logger, and the answer's bytes.
pub record AuthEnd : Type 0 where
  pub status : Bool
  pub event : EventData
  pub answer : Bytes

abbrev pub auth_end : Bool → EventData → AuthEnd
auth_end status event = record {
  status = status;
  event = event;
  answer = 1 ∷ (if status then 0 else 1) ∷ [];
}

unfoldable pub check_credentials : ℕ → UserManager → Reader AuthEnd
check_credentials id m = do
  username ← read_chunked_utf8_string
  password ← read_chunked_utf8_string
  pure (
      auth_end (client_login username password m)
        (client_authenticated_with_userpass id username (client_login username password m)))

unfoldable pub handle_userpass_auth : ℕ → UserManager → Reader AuthEnd
unfolding check_credentials
handle_userpass_auth id m = do
  ver ← read_u8
  if not (ver == 1)
      then pure (auth_end false (client_requested_unsupported_userpass_version id ver))
      else check_credentials id m

-- The credentials as RFC 1929 has them.
abbrev pub credential_bytes : Text → Text → Bytes
credential_bytes username password =
    1 ∷ byte_len username ∷ as_bytes username ++ byte_len password ∷ as_bytes password

read_chunked_utf8_string-bytes :
    (s : Text) (rest : Bytes)
    → All IsChar s
    → read_chunked_utf8_string (byte_len s ∷ as_bytes s ++ rest) ≡ ok (s, rest)
unfolding read_chunked_utf8_string read_u8 take_byte ◌>>=◌ continue byte_len checked_utf8 pure
read_chunked_utf8_string-bytes s rest h =
    ground (arith, read_exact-append (as_bytes s) rest, from_utf8-as_bytes s h)

not_both : false ≢ true
not_both = ground arith

client_login_iff :
    (u p : Text) (m : UserManager)
    → (client_login u p m ≡ true)
      ↔ ((r : UserRole) × (find u m ≡ some (record { password = p; role = r })))
unfolding client_login
client_login_iff u p m = elim (Option-cases (try_login u p m)) [
  | inl e ↦ (
    λ h. absurd (not_both (ap is_login (sym e) ∙ h)),
    λ (r, h). ap is_login ((try_login_iff u p r m).1 h),
  )
  | inr (r, e) ↦ (λ h. (r, (try_login_iff u p r m).0 e), λ h. ap is_login e)
]

check_credentials-bytes :
    (id : ℕ) (m : UserManager) (u p : Text) (rest : Bytes)
    → All IsChar u
    → All IsChar p
    → check_credentials id m (byte_len u ∷ as_bytes u ++ (byte_len p ∷ as_bytes p ++ rest))
      ≡ ok (
        auth_end
            (client_login u p m)
            (client_authenticated_with_userpass id u (client_login u p m)),
        rest,
      )
unfolding check_credentials ◌>>=◌ continue pure
check_credentials-bytes id m u p rest hu hp = ground (
  arith,
  read_chunked_utf8_string-bytes u (byte_len p ∷ as_bytes p ++ rest) hu,
  read_chunked_utf8_string-bytes p rest hp,
)

-- The credentials are read to their end.
pub handle_userpass_auth_reads :
    (id : ℕ) (m : UserManager) (u p : Text) (rest : Bytes)
    → All IsChar u
    → All IsChar p
    → handle_userpass_auth id m (credential_bytes u p ++ rest)
      ≡ ok (
        auth_end
            (client_login u p m)
            (client_authenticated_with_userpass id u (client_login u p m)),
        rest,
      )
unfolding handle_userpass_auth read_u8 take_byte ◌>>=◌ continue
handle_userpass_auth_reads id m u p rest hu hp =
    ap (check_credentials id m)
      (ap (λ t. byte_len u ∷ t) (append_assoc (as_bytes u) (byte_len p ∷ as_bytes p) rest))
    ∙ check_credentials-bytes id m u p rest hu hp

-- A name and a password of 255 bytes at most, as RFC 1929 has them, are read to their end, and the
-- status and the answer say success exactly where the name has a user with that password.
pub handle_userpass_auth-credential_bytes :
    (id : ℕ) (m : UserManager) (u p : Text) (rest : Bytes)
    → IsText 255 u
    → IsText 255 p
    → (e : AuthEnd) × (handle_userpass_auth id m (credential_bytes u p ++ rest) ≡ ok (e, rest))
      × ((e.status ≡ true)
          ↔ ((r : UserRole) × (find u m ≡ some (record { password = p; role = r }))))
      × (e.answer ≡ 1 ∷ (if e.status then 0 else 1) ∷ [])
handle_userpass_auth-credential_bytes id m u p rest hu hp = (
  auth_end (client_login u p m) (client_authenticated_with_userpass id u (client_login u p m)),
  handle_userpass_auth_reads id m u p rest hu.chars hp.chars,
  client_login_iff u p m,
  refl,
)
