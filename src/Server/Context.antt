-- ===== src/Server/Context.antt =====
-- dust-devil/src/context.rs: the state that the tasks of the server share, and what a sandstorm
-- manager does to it.
use dust_devil.Base.{
  ℕ, Bool, true, false, ◌&&◌, ◌||◌, not, Option, none, some, List, [], ◌∷◌, ◌++◌, ◌==◌, leb, ltb,
  if◌then◌else◌,
}
use dust_devil.Io.{Text}
use dust_devil.Protocol.Users.{UserRole}
use dust_devil.Protocol.Socks.{AuthMethod, no_auth, username_and_password}
use dust_devil.Protocol.Events.{
  EventData, user_registered_by_manager, user_updated_by_manager, user_deleted_by_manager,
  auth_method_toggled_by_manager, buffer_size_changed_by_manager,
}
use dust_devil.Protocol.Results.{AddUserResponse, UpdateUserResponse, DeleteUserResponse}
use dust_devil.Serialize.Containers.{Result, ok, err}
use dust_devil.Server.Users.{UserManager, insert, update, delete, try_login, is_admin}

pub record ServerState : Type 0 where
  pub users : UserManager
  pub no_auth_enabled : Bool
  pub userpass_auth_enabled : Bool
  pub buffer_size : ℕ
  pub has_metrics : Bool

-- The shared state, and the events sent to the logger where there is one.
pub record World : Type 0 where
  pub state : ServerState
  pub has_logger : Bool
  pub events : List EventData

-- `log!`
abbrev pub log : EventData → World → World
log e w = record {
  state = w.state;
  has_logger = w.has_logger;
  events = if w.has_logger then w.events ++ e ∷ [] else w.events;
}

abbrev pub with_state : ServerState → World → World
with_state s w = record { state = s; has_logger = w.has_logger; events = w.events }

abbrev pub with_users : UserManager → World → World
with_users m w =
    with_state
      (record {
        users = m;
        no_auth_enabled = w.state.no_auth_enabled;
        userpass_auth_enabled = w.state.userpass_auth_enabled;
        buffer_size = w.state.buffer_size;
        has_metrics = w.state.has_metrics;
      })
      w

-- Whether the role that a login gives is an administrator's.
abbrev admin_login : Option UserRole → Option Bool
admin_login (some r) = some (is_admin r)
admin_login none = none

-- `SandstormContext::try_login`.
unfoldable pub manager_login : Text → Text → World → Option Bool
manager_login username password w = admin_login (try_login username password w.state.users)

-- `c.is_control() || (c.is_ascii() && !c.is_ascii_graphic())`
abbrev pub is_refused : ℕ → Bool
is_refused c =
    ltb c 0x20 || (leb 0x7f c && leb c 0x9f) || (ltb c 0x80 && not (leb 0x21 c && leb c 0x7e))

unfoldable pub has_refused : Text → Bool
has_refused [] = false
has_refused (c ∷ s) = is_refused c || has_refused s

unfoldable pub added : ℕ → Text → UserRole → Bool × UserManager → World → AddUserResponse × World
added id username role (true, m) w =
    (AddUserResponse.ok, log (user_registered_by_manager id username role) (with_users m w))
added id username role (false, m) w = (AddUserResponse.already_exists, with_users m w)

unfoldable pub add_user : ℕ → Text → Text → UserRole → World → AddUserResponse × World
unfolding added has_refused
add_user id username password role w =
    if has_refused username
    then (AddUserResponse.invalid_values, w)
    else added id username role (insert username password role w.state.users) w

abbrev is_given : {A : Type 0} → Option A → Bool
is_given (some a) = true
is_given none = false

unfoldable pub user_updated :
    ℕ
    → Text
    → Bool
    → Result (Option UserRole) Unit × UserManager
    → World
    → UpdateUserResponse × World
user_updated id username has_password (ok (some role), m) w = (
  UpdateUserResponse.ok,
  log (user_updated_by_manager id username role has_password) (with_users m w),
)
user_updated id username has_password (ok none, m) w =
    (UpdateUserResponse.cannot_delete_only_admin, with_users m w)
user_updated id username has_password (err u, m) w =
    (UpdateUserResponse.user_not_found, with_users m w)

unfoldable pub update_user :
    ℕ → Text → Option Text → Option UserRole → World → UpdateUserResponse × World
unfolding user_updated
update_user id username password role w =
    if not (is_given password) && not (is_given role)
    then (UpdateUserResponse.nothing_was_requested, w)
    else user_updated id username (is_given password) (update username password role w.state.users)
        w

unfoldable pub user_deleted :
    ℕ → Result (Option (Text × UserRole)) Unit × UserManager → World → DeleteUserResponse × World
user_deleted id (ok (some (username, role)), m) w =
    (DeleteUserResponse.ok, log (user_deleted_by_manager id username role) (with_users m w))
user_deleted id (ok none, m) w = (DeleteUserResponse.cannot_delete_only_admin, with_users m w)
user_deleted id (err u, m) w = (DeleteUserResponse.user_not_found, with_users m w)

unfoldable pub delete_user : ℕ → Text → World → DeleteUserResponse × World
unfolding user_deleted
delete_user id username w = user_deleted id (delete username w.state.users) w

unfoldable pub get_auth_methods : World → List (AuthMethod × Bool)
get_auth_methods w =
    (no_auth, w.state.no_auth_enabled) ∷ (username_and_password, w.state.userpass_auth_enabled) ∷ []

abbrev set_auth : AuthMethod → Bool → ServerState → ServerState
set_auth m b s = record {
  users = s.users;
  no_auth_enabled = elim m [ no_auth ↦ b | username_and_password ↦ s.no_auth_enabled ];
  userpass_auth_enabled = elim m [ no_auth ↦ s.userpass_auth_enabled | username_and_password ↦ b ];
  buffer_size = s.buffer_size;
  has_metrics = s.has_metrics;
}

unfoldable pub toggle_auth_method : ℕ → AuthMethod → Bool → World → Bool × World
toggle_auth_method id m b w =
    (true, log (auth_method_toggled_by_manager id m b) (with_state (set_auth m b w.state) w))

unfoldable pub set_buffer_size : ℕ → ℕ → World → Bool × World
set_buffer_size id value w = if value == 0 then (false, w) else (
  true,
  with_state
      (record {
        users = w.state.users;
        no_auth_enabled = w.state.no_auth_enabled;
        userpass_auth_enabled = w.state.userpass_auth_enabled;
        buffer_size = value;
        has_metrics = w.state.has_metrics;
      })
      (log (buffer_size_changed_by_manager id value) w),
)
