-- ===== src/Tests/Startup.antt =====
-- Startup, and the handshake and authentication of socks5 clients, at concrete values.
use dust_devil.Base.{
  inl, true, ◌++◌, if◌then◌else◌, ◌≡◌, ◌≢◌, ◌↔◌, refl, none, some, [], ◌∷◌, arith,
}
use dust_devil.Io.{Text, ok}
use dust_devil.Serialize.Texts.Laws.{IsText}
use dust_devil.Utf8.{byte_len, as_bytes, encode_char}
use dust_devil.Serialize.Containers.{Result}
use dust_devil.Protocol.Users.{UserRole, admin, regular}
use dust_devil.Server.Table.{lookup, total}
use dust_devil.Server.Users.{UserData, UserManager}
use dust_devil.Server.Users.Laws.{IsValid}
use dust_devil.Server.Users.Lookup.{find}
use dust_devil.Server.Socks.Auth.{
  AuthEnd, handle_userpass_auth, credential_bytes, handle_userpass_auth-credential_bytes,
}
use dust_devil.Server.Startup.{ensure_admin, create_user_manager, default_name}
use dust_devil.Server.Startup.Laws.{create_user_manager-IsValid, ensure_admin_iff}

abbrev ana : Text
ana = b'a' ∷ b'n' ∷ b'a' ∷ []

abbrev bo : Text
bo = b'b' ∷ b'o' ∷ []

abbrev secret : UserData
secret = record { password = bo; role = admin }

abbrev one_admin : UserManager
one_admin = record { users = (ana, secret) ∷ []; admin_count = 1 }

one_admin-IsValid : IsValid one_admin
unfolding lookup total
one_admin-IsValid = record { keys = (refl, tt); counted = refl; fits = omega arith }

create_user_manager-IsValid_example :
    IsValid (create_user_manager ana (Result.ok one_admin) ((bo, secret) ∷ (ana, secret) ∷ [])).0
create_user_manager-IsValid_example =
    create_user_manager-IsValid ana (Result.ok one_admin) ((bo, secret) ∷ (ana, secret) ∷ [])
      (omega arith) one_admin-IsValid

abbrev no_admin : UserManager
no_admin = record {
  users = (default_name, record { password = bo; role = regular }) ∷ [];
  admin_count = 0;
}

ensure_admin_iff_example :
    ((ensure_admin (no_admin, [])).0.admin_count ≡ 0)
    ↔ ((no_admin.admin_count ≡ 0) × (lookup default_name no_admin.users ≢ none))
ensure_admin_iff_example = ensure_admin_iff no_admin []

ana-IsText : IsText 255 ana
unfolding byte_len as_bytes encode_char
ana-IsText = record {
  chars = (inl (omega arith), (inl (omega arith), (inl (omega arith), tt)));
  fits = omega arith;
}

handle_userpass_auth-credential_bytes_example :
    (e : AuthEnd) × (handle_userpass_auth 3 one_admin (credential_bytes ana ana ++ (5 ∷ []))
      ≡ ok (e, 5 ∷ []))
    × ((e.status ≡ true)
        ↔ ((r : UserRole) × (find ana one_admin ≡ some (record { password = ana; role = r }))))
    × (e.answer ≡ 1 ∷ (if e.status then 0 else 1) ∷ [])
handle_userpass_auth-credential_bytes_example =
    handle_userpass_auth-credential_bytes 3 one_admin ana ana (5 ∷ []) ana-IsText ana-IsText
