-- ===== src/Protocol/Requests/Laws.antt =====
-- Requests of dust-devil-core/src/sandstorm, written and read.
use dust_devil.Base.{◌<◌, ◌^◌, ◌≡◌, refl, Option, none, some}
use dust_devil.Io.{Text}
use dust_devil.Io.Reader.{Reader, ◌>>=◌, pure}
use dust_devil.Io.Wire.{Wire, Wire-bind, Wire-end, Wire-last}
use dust_devil.Serialize.Texts.Laws.{IsText, Wire-small_string}
use dust_devil.Serialize.Addresses.{IsSocketAddr}
use dust_devil.Serialize.Containers.Laws.{AllOption, Wire-option}
use dust_devil.Serialize.Rules.{wire_rules}
use dust_devil.Protocol.Users.{UserRole}
use dust_devil.Protocol.Users.Laws.{role_last, Wire-role}
use dust_devil.Protocol.Socks.Laws.{auth_method_first}
use dust_devil.Protocol.Commands.{Wire-command}
use dust_devil.Protocol.Requests.{
  Request, write_optional_password, read_optional_password, write_optional_role, read_optional_role,
  write_request, read_request,
}

abbrev pub IsOptionalText : Option Text → Type 0
IsOptionalText = AllOption (IsText 255)

-- What the Rust types promise of the values inside, and texts short enough to be written.
abbrev pub IsRequest : Request → Type 0
IsRequest (Request.add_socks5_socket addr) = IsSocketAddr addr
IsRequest (Request.remove_socks5_socket addr) = IsSocketAddr addr
IsRequest (Request.add_sandstorm_socket addr) = IsSocketAddr addr
IsRequest (Request.remove_sandstorm_socket addr) = IsSocketAddr addr
IsRequest (Request.add_user s s' _) = IsText 255 s × IsText 255 s'
IsRequest (Request.update_user s password _) = IsText 255 s × IsOptionalText password
IsRequest (Request.delete_user s) = IsText 255 s
IsRequest (Request.set_buffer_size size) = (size < 256 ^ 4)
IsRequest r = Unit {0}

Wire-optional_password :
    (o : Option Text) → IsOptionalText o → Wire (write_optional_password o) read_optional_password o
unfolding write_optional_password read_optional_password
Wire-optional_password none h = Wire-option _ _ none tt
Wire-optional_password (some s) h = Wire-option _ _ (some s) (Wire-small_string s h)

Wire-optional_role : (o : Option UserRole) → Wire (write_optional_role o) read_optional_role o
unfolding write_optional_role read_optional_role
Wire-optional_role none = Wire-option _ _ none tt
Wire-optional_role (some r) = Wire-option _ _ (some r) (Wire-role r)

optional_role_last :
    {B : Type 0} {b : B} (f : Option UserRole → Reader B) (o : Option UserRole)
    → f o ≡ pure b
    → Wire (write_optional_role o) (read_optional_role >>= f) b
optional_role_last f o e = Wire-last Wire-optional_role f o e

ruleset request_rules =
    (wire_rules, role_last, auth_method_first, optional_role_last, Wire-optional_password)

-- A request of any kind, its numbers in range and its texts short enough to be written, travels to the
-- server.
pub Wire-request : (r : Request) → IsRequest r → Wire (write_request r) read_request r
unfolding write_request read_request
Wire-request Request.shutdown h = Wire-end _ (Wire-command _) refl
Wire-request Request.list_socks5_sockets h = Wire-end _ (Wire-command _) refl
Wire-request Request.list_sandstorm_sockets h = Wire-end _ (Wire-command _) refl
Wire-request Request.list_users h = Wire-end _ (Wire-command _) refl
Wire-request Request.list_auth_methods h = Wire-end _ (Wire-command _) refl
Wire-request Request.request_current_metrics h = Wire-end _ (Wire-command _) refl
Wire-request Request.get_buffer_size h = Wire-end _ (Wire-command _) refl
Wire-request Request.meow h = Wire-end _ (Wire-command _) refl
Wire-request r h = Wire-bind _ (Wire-command _) (search request_rules depth 9)
