-- ===== src/Protocol/Responses/Lists.antt =====
-- The lists and optional values inside responses: the generic `impl`s at these types.
use dust_devil.Base.{◌≤◌, Bool, Option, none, some, List, [], ◌∷◌, length, All}
use dust_devil.Io.{Text}
use dust_devil.Io.Reader.{Reader}
use dust_devil.Io.Writer.{Writer}
use dust_devil.Io.Wire.{Wire}
use dust_devil.Serialize.Numbers.{write_bool, read_bool}
use dust_devil.Serialize.Numbers.Laws.{Wire-bool}
use dust_devil.Serialize.Texts.{write_string, read_string}
use dust_devil.Serialize.Texts.Laws.{IsText, Wire-string}
use dust_devil.Serialize.Addresses.{SocketAddr, IsSocketAddr, write_socket_addr, read_socket_addr}
use dust_devil.Serialize.Addresses.Laws.{Wire-socket_addr}
use dust_devil.Serialize.Containers.{
  write_option, read_option, write_list, read_list, write_small_list, read_small_list, write_pair,
  read_pair,
}
use dust_devil.Serialize.Containers.Laws.{
  AllOption, Wire-option, Wire-list, Wire-small_list, Wire-pair,
}
use dust_devil.Protocol.Users.{UserRole, write_role, read_role}
use dust_devil.Protocol.Users.Laws.{Wire-role}
use dust_devil.Protocol.Socks.{AuthMethod, write_auth_method, read_auth_method}
use dust_devil.Protocol.Socks.Laws.{Wire-auth_method}
use dust_devil.Protocol.Metrics.{Metrics, write_metrics, read_metrics, IsMetrics, Wire-metrics}

unfoldable pub write_addresses : List SocketAddr → Writer
write_addresses = write_list write_socket_addr

unfoldable pub read_addresses : Reader (List SocketAddr)
read_addresses = read_list read_socket_addr

unfoldable pub write_user_list : List (Text × UserRole) → Writer
write_user_list = write_list (write_pair write_string write_role)

unfoldable pub read_user_list : Reader (List (Text × UserRole))
read_user_list = read_list (read_pair read_string read_role)

unfoldable pub write_auth_methods : List (AuthMethod × Bool) → Writer
write_auth_methods = write_small_list (write_pair write_auth_method write_bool)

unfoldable pub read_auth_methods : Reader (List (AuthMethod × Bool))
read_auth_methods = read_small_list (read_pair read_auth_method read_bool)

unfoldable pub write_optional_metrics : Option Metrics → Writer
write_optional_metrics = write_option write_metrics

unfoldable pub read_optional_metrics : Reader (Option Metrics)
read_optional_metrics = read_option read_metrics

All-map :
    {A : Type 0} {P Q : A → Type 0} → ((a : A) → P a → Q a) → (xs : List A) → All P xs → All Q xs
All-map f [] h = tt
All-map f (x ∷ xs) h = (f x h.0, All-map f xs h.1)

All-always : {A : Type 0} {Q : A → Type 0} → ((a : A) → Q a) → (xs : List A) → All Q xs
All-always f [] = tt
All-always f (x ∷ xs) = (f x, All-always f xs)

abbrev pub IsAddresses : List SocketAddr → Type 0
IsAddresses xs = (length xs ≤ 65535) × All IsSocketAddr xs

pub Wire-addresses :
    (xs : List SocketAddr) → IsAddresses xs → Wire (write_addresses xs) read_addresses xs
unfolding write_addresses read_addresses
Wire-addresses xs h = Wire-list _ _ xs h.0 (All-map Wire-socket_addr xs h.1)

abbrev pub IsUserEntry : Text × UserRole → Type 0
IsUserEntry u = IsText 65535 u.0

Wire-user_entry :
    (u : Text × UserRole)
    → IsUserEntry u
    → Wire (write_pair write_string write_role u) (read_pair read_string read_role) u
Wire-user_entry (s, r) h = Wire-pair _ _ _ _ (Wire-string s h) (Wire-role r)

abbrev pub IsUserList : List (Text × UserRole) → Type 0
IsUserList xs = (length xs ≤ 65535) × All IsUserEntry xs

pub Wire-user_list :
    (xs : List (Text × UserRole)) → IsUserList xs → Wire (write_user_list xs) read_user_list xs
unfolding write_user_list read_user_list
Wire-user_list xs h = Wire-list _ _ xs h.0 (All-map Wire-user_entry xs h.1)

Wire-auth_entry :
    (m : AuthMethod × Bool)
    → Wire (write_pair write_auth_method write_bool m) (read_pair read_auth_method read_bool) m
Wire-auth_entry (m, b) = Wire-pair _ _ _ _ (Wire-auth_method m) (Wire-bool b)

abbrev pub IsAuthMethods : List (AuthMethod × Bool) → Type 0
IsAuthMethods xs = length xs ≤ 255

pub Wire-auth_methods :
    (xs : List (AuthMethod × Bool))
    → IsAuthMethods xs
    → Wire (write_auth_methods xs) read_auth_methods xs
unfolding write_auth_methods read_auth_methods
Wire-auth_methods xs h = Wire-small_list _ _ xs h (All-always Wire-auth_entry xs)

abbrev pub IsOptionalMetrics : Option Metrics → Type 0
IsOptionalMetrics = AllOption IsMetrics

pub Wire-optional_metrics :
    (o : Option Metrics)
    → IsOptionalMetrics o
    → Wire (write_optional_metrics o) read_optional_metrics o
unfolding write_optional_metrics read_optional_metrics
Wire-optional_metrics none h = Wire-option _ _ none tt
Wire-optional_metrics (some m) h = Wire-option _ _ (some m) (Wire-metrics m h)
