-- ===== src/Server/Args/Gathered.antt =====
-- What dust-devil/src/args.rs has gathered of the arguments at any time, and what each option keeps of it.
use dust_devil.Base.{
  ◌≢◌, ℕ, ◌^◌, ◌<◌, ◌≤◌, ◌≡◌, refl, Bool, true, false, ◌||◌, Option, none, some, List, [], ◌∷◌, All,
  str_eq, if◌then◌else◌, arith, Bool-cases, inl, inr, ◌⊎◌,
}
use dust_devil.Io.{Text}
use dust_devil.Utf8.{byte_len}
use dust_devil.Serialize.Addresses.{SocketAddr, addr_eq}
use dust_devil.Serialize.Containers.{Result}
use dust_devil.Protocol.Users.{UsersLoadingError}
use dust_devil.Protocol.BufferSize.{parse_pretty_buffer_size}
use dust_devil.Protocol.BufferSize.Bounds.{parse_pretty_buffer_size_bounds}
use dust_devil.Args.{SocketErrorType, contains}
use dust_devil.Args.Distinct.{IsDistinct, AreDistinct}
use dust_devil.Server.Table.{Table, IsMap, lookup, put, without, put-IsMap}
use dust_devil.Server.Users.{UserData}
use dust_devil.Server.UsersFile.{is_empty}
use dust_devil.Server.Args.{
  StartupArguments, default_users_file, no_arguments, fill_empty_fields_with_defaults,
  sockets_or_default, NewUserErrorType, parse_file_arg, parse_auth_arg, parse_buffer_size_arg,
  add_new_user, with_field, default_socks5_port, default_sandstorm_port,
}

abbrev pub IsShort : Text → Type 0
IsShort t = (is_empty t ≡ false) × (byte_len t ≤ 258)

abbrev pub IsShortUser : Text × UserData → Type 0
IsShortUser (name, user) = IsShort name × IsShort user.password

abbrev pub LogFits : Option Text → (events_enabled : Bool) → Type 0
LogFits none events = Unit
LogFits (some file) events = (is_empty file ≡ false) × (events ≡ true)

-- What has been gathered of the arguments.
pub record IsGathered (r : StartupArguments) : Type 0 where
  pub socks5 : IsDistinct r.socks5_bind_sockets
  pub sandstorm : IsDistinct r.sandstorm_bind_sockets
  pub logs : LogFits r.log_file r.events_enabled
  pub quiet : (r.events_enabled || r.silent) ≡ true
  pub names : IsMap r.users
  pub users : All IsShortUser r.users
  pub size : r.buffer_size < 2 ^ 32

-- What a server is started with.
pub record IsComplete (r : StartupArguments) : Type 0 where
  pub gathered : IsGathered r
  pub socks5 : r.socks5_bind_sockets ≢ []
  pub sandstorm : r.sandstorm_bind_sockets ≢ []
  pub users_file : is_empty r.users_file ≡ false
  pub size : 0 < r.buffer_size

pub no_arguments-IsGathered : IsGathered no_arguments
no_arguments-IsGathered = record {
  socks5 = tt;
  sandstorm = tt;
  logs = tt;
  quiet = refl;
  names = tt;
  users = tt;
  size = omega arith;
}

abbrev pub AreGathered : {E : Type 0} → Result StartupArguments E → Type 0
AreGathered (Result.ok r) = IsGathered r
AreGathered (Result.err e) = Unit

pub log_file-AreGathered :
    (r : StartupArguments) (file arg : Text) (next : Option Text)
    → IsGathered r
    → r.events_enabled ≡ true
    → AreGathered (with_field (λ f. record r { log_file = some f }) (parse_file_arg file arg next))
unfolding parse_file_arg
log_file-AreGathered r file arg none g e = tt
log_file-AreGathered r file arg (some arg2) g e = ground arith

pub users_file-AreGathered :
    (r : StartupArguments) (arg : Text) (next : Option Text)
    → IsGathered r
    → AreGathered
        (with_field (λ f. record r { users_file = f }) (parse_file_arg r.users_file arg next))
unfolding parse_file_arg
users_file-AreGathered r arg none g = tt
users_file-AreGathered r arg (some arg2) g = ground arith

pub listen-AreGathered :
    (r : StartupArguments) (o : Result (List SocketAddr) SocketErrorType)
    → IsGathered r
    → AreDistinct o
    → AreGathered (with_field (λ l. record r { socks5_bind_sockets = l }) o)
listen-AreGathered r (Result.ok l) g d = ground arith
listen-AreGathered r (Result.err e) g d = tt

pub management-AreGathered :
    (r : StartupArguments) (o : Result (List SocketAddr) SocketErrorType)
    → IsGathered r
    → AreDistinct o
    → AreGathered (with_field (λ l. record r { sandstorm_bind_sockets = l }) o)
management-AreGathered r (Result.ok l) g d = ground arith
management-AreGathered r (Result.err e) g d = tt

pub auth-AreGathered :
    (r : StartupArguments) (enable : Bool) (arg : Text) (next : Option Text)
    → IsGathered r
    → AreGathered (parse_auth_arg r enable arg next)
unfolding parse_auth_arg
auth-AreGathered r enable arg none g = tt
auth-AreGathered r enable arg (some arg2) g = ground arith

Result-cases :
    {A E : Type 0} (o : Result A E) → ((a : A) × (o ≡ Result.ok a)) ⊎ ((e : E) × (o ≡ Result.err e))
Result-cases (Result.ok a) = inl (a, refl)
Result-cases (Result.err e) = inr (e, refl)

pub size-AreGathered :
    (r : StartupArguments) (arg : Text) (next : Option Text)
    → IsGathered r
    → AreGathered (parse_buffer_size_arg r arg next)
unfolding parse_buffer_size_arg
size-AreGathered r arg none g = tt
size-AreGathered r arg (some arg2) g = elim (Result-cases (parse_pretty_buffer_size arg2)) [
  | inl (n, e) ↦ ground (arith, e, parse_pretty_buffer_size_bounds arg2 n e)
  | inr (x, e) ↦ ground (arith, e)
]

without-All :
    {V : Type 0} (P : Text × V → Type 0) (k : Text) (l : Table V) → All P l → All P (without k l)
unfolding without
without-All P k [] h = tt
without-All P k ((j, v) ∷ l) h = elim (Bool-cases (str_eq j k)) [
  | inl e ↦ rw e (without-All P k l h.1)
  | inr e ↦ rw e (h.0, without-All P k l h.1)
]

entry-AreGathered :
    (r : StartupArguments) (arg arg2 name : Text) (u : UserData) (o : Option UserData)
    → IsShortUser (name, u)
    → IsGathered r
    → AreGathered (elim o as (λ x. Result StartupArguments NewUserErrorType) [
      | some old ↦ Result.err (NewUserErrorType.duplicate_username arg arg2)
      | none ↦ Result.ok (record r { users = put name u r.users })
    ])
unfolding put
entry-AreGathered r arg arg2 name u none h g = record {
  socks5 = g.socks5;
  sandstorm = g.sandstorm;
  logs = g.logs;
  quiet = g.quiet;
  names = put-IsMap name u r.users g.names;
  users = (h, without-All IsShortUser name r.users g.users);
  size = g.size;
}
entry-AreGathered r arg arg2 name u (some old) h g = tt

pub add_new_user-AreGathered :
    (r : StartupArguments) (arg arg2 : Text)
    (o : Result (Option (Text × UserData)) UsersLoadingError)
    → ((name : Text) (u : UserData) → o ≡ Result.ok (some (name, u)) → IsShortUser (name, u))
    → IsGathered r
    → AreGathered (add_new_user r arg arg2 o)
unfolding add_new_user
add_new_user-AreGathered r arg arg2 (Result.ok (some (name, u))) h g =
    entry-AreGathered r arg arg2 name u (lookup name r.users) (h name u refl) g
add_new_user-AreGathered r arg arg2 (Result.ok none) h g = tt
add_new_user-AreGathered r arg arg2 (Result.err e) h g = tt

default-IsDistinct :
    (port : ℕ) (bs : List SocketAddr) → IsDistinct bs → IsDistinct (sockets_or_default port bs)
unfolding sockets_or_default contains addr_eq
default-IsDistinct port [] d = (refl, (refl, tt))
default-IsDistinct port (a ∷ bs) d = d

default-ne-nil : (port : ℕ) (bs : List SocketAddr) → sockets_or_default port bs ≢ []
unfolding sockets_or_default
default-ne-nil port [] = cc
default-ne-nil port (a ∷ bs) = cc

named_file : (t : Text) → is_empty (if is_empty t then default_users_file else t) ≡ false
named_file [] = refl
named_file (c ∷ t) = refl

pub defaults-IsComplete :
    (r : StartupArguments) → IsGathered r → IsComplete (fill_empty_fields_with_defaults r)
unfolding fill_empty_fields_with_defaults
defaults-IsComplete r g = record {
  gathered = record {
    socks5 = default-IsDistinct default_socks5_port r.socks5_bind_sockets g.socks5;
    sandstorm = default-IsDistinct default_sandstorm_port r.sandstorm_bind_sockets g.sandstorm;
    logs = g.logs;
    quiet = g.quiet;
    names = g.names;
    users = g.users;
    size = ground (arith, g.size);
  };
  socks5 = default-ne-nil default_socks5_port r.socks5_bind_sockets;
  sandstorm = default-ne-nil default_sandstorm_port r.sandstorm_bind_sockets;
  users_file = named_file r.users_file;
  size = ground arith;
}
