-- ===== src/Server/Startup.antt =====
-- The users at startup: `UserManager::from` (dust-devil/src/users.rs) over the lines of a file, and
-- `create_user_manager` (server.rs), with the events for the logger, where there is one.
pub mod Laws
use dust_devil.Base.{
  ℕ, ◌+◌, ◌%◌, ◌^◌, Bool, true, false, Option, none, some, List, [], ◌∷◌, ◌++◌, length, ◌==◌,
  if◌then◌else◌,
}
use dust_devil.Io.{Text, text}
use dust_devil.Protocol.Users.{UserRole, admin, UsersLoadingError, no_users}
use dust_devil.Protocol.Events.{
  EventData, users_loaded_from_file, user_replaced_by_args, user_registered_by_args,
  starting_up_with_single_default_user,
}
use dust_devil.Serialize.Containers.{Result, ok, err}
use dust_devil.Server.Table.{Table, lookup, put}
use dust_devil.Server.Users.{
  UserData, UserManager, is_admin, add_one, sub_one, new, insert, insert_or_update, count,
}
use dust_devil.Server.UsersFile.{is_empty, trim_start, parse_line_into_user}

abbrev pub was_admin : Option UserData → Bool
was_admin (some old) = is_admin old.role
was_admin none = false

-- A user of the file takes the place of one of the same name.
unfoldable pub load_user : Option (Text × UserData) → UserManager → UserManager
load_user none m = m
load_user (some (username, user)) m =
    let n = if was_admin (lookup username m.users) then sub_one m.admin_count else m.admin_count in
    record {
      users = put username user m.users;
      admin_count = if is_admin user.role then add_one n else n;
    }

-- What is read from a line, when its whitespace is skipped: `none` where that panics.
unfoldable pub read_line :
    ℕ → Option (Text × ℕ) → Option (Result (Option (Text × UserData)) UsersLoadingError)
read_line line_number none = none
read_line line_number (some (s, char_at)) =
    if is_empty s then some (ok none) else some (parse_line_into_user s line_number char_at)

-- The lines of a file from the given number on.
unfoldable pub load_lines :
    ℕ → List Text → UserManager → Option (Result UserManager UsersLoadingError)
unfolding load_user read_line
load_lines line_number [] m = some (ok m)
load_lines line_number (s ∷ lines) m = elim (read_line line_number (trim_start s 0)) [
  | none ↦ none
  | some (err e) ↦ some (err e)
  | some (ok user) ↦ load_lines ((line_number + 1) % 2 ^ 32) lines (load_user user m)
]

abbrev pub refuse_empty :
    Option (Result UserManager UsersLoadingError) → Option (Result UserManager UsersLoadingError)
refuse_empty (some (ok m)) = if count m == 0 then some (err no_users) else some (ok m)
refuse_empty r = r

-- `UserManager::from`, for a file that has been cut into lines.
unfoldable pub from_lines : List Text → Option (Result UserManager UsersLoadingError)
unfolding load_lines
from_lines lines = refuse_empty (load_lines 1 lines new)

abbrev loaded_manager : Result UserManager UsersLoadingError → UserManager
loaded_manager (ok m) = m
loaded_manager (err e) = new

abbrev loaded_event : Text → Result UserManager UsersLoadingError → EventData
loaded_event file (ok m) = users_loaded_from_file file (ok (count m))
loaded_event file (err e) = users_loaded_from_file file (err e)

-- The users of the command line, in the order in which the map gives them.
unfoldable pub register_users :
    List (Text × UserData) → List EventData → UserManager → UserManager × List EventData
register_users [] events m = (m, events)
register_users ((username, user) ∷ more) events m =
    let (replaced, m') = insert_or_update username user.password user.role m in
    let event =
      if replaced
      then user_replaced_by_args username user.role
      else user_registered_by_args username user.role in
    register_users more (events ++ event ∷ []) m'

abbrev pub default_name : Text
default_name = text "admin"

unfoldable pub ensure_admin : UserManager × List EventData → UserManager × List EventData
ensure_admin (m, events) =
    if m.admin_count == 0
    then (
      (insert default_name (text "admin") admin m).1,
      events ++ starting_up_with_single_default_user (text "admin:admin") ∷ [],
    )
    else (m, events)

unfoldable pub create_user_manager :
    Text
    → Result UserManager UsersLoadingError
    → List (Text × UserData)
    → UserManager × List EventData
unfolding ensure_admin register_users
create_user_manager file loaded new_users =
    ensure_admin (register_users new_users (loaded_event file loaded ∷ []) (loaded_manager loaded))
