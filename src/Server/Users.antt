-- ===== src/Server/Users.antt =====
-- dust-devil/src/users.rs: the users of the server and how many of them are administrators.
pub mod Laws
pub mod Lookup
pub mod Runs
use dust_devil.Base.{
  ℕ, ◌+◌, ◌-◌, ◌%◌, ◌^◌, Bool, true, false, ◌&&◌, not, Option, none, some, List, [], ◌∷◌, map,
  length, ◌==◌, if◌then◌else◌, str_eq,
}
use dust_devil.Io.{Text}
use dust_devil.Protocol.Users.{UserRole, admin, regular}
use dust_devil.Serialize.Containers.{Result, ok, err}
use dust_devil.Server.Table.{Table, lookup, without, put}

pub record UserData : Type 0 where
  pub password : Text
  pub role : UserRole

pub record UserManager : Type 0 where
  pub users : Table UserData
  pub admin_count : ℕ

abbrev pub is_admin : UserRole → Bool
is_admin admin = true
is_admin regular = false

-- `AtomicU32::fetch_add(1)` and `fetch_sub(1)`, which wrap around.
abbrev pub add_one : ℕ → ℕ
add_one n = (n + 1) % 2 ^ 32

abbrev pub sub_one : ℕ → ℕ
sub_one n = (n + (2 ^ 32 - 1)) % 2 ^ 32

abbrev pub new : UserManager
new = record { users = []; admin_count = 0 }

unfoldable pub insert_at : Option UserData → Text → UserData → UserManager → Bool × UserManager
insert_at (some _) username user m = (false, m)
insert_at none username user m = (
  true,
  record {
    users = put username user m.users;
    admin_count = if is_admin user.role then add_one m.admin_count else m.admin_count;
  },
)

unfoldable pub insert : Text → Text → UserRole → UserManager → Bool × UserManager
unfolding insert_at
insert username password role m =
    insert_at (lookup username m.users) username (record { password = password; role = role }) m

-- The count of administrators after `users.insert` has given back an old value.
unfoldable replace_count : Option UserData → UserRole → ℕ → ℕ
replace_count (some old) role n =
    if is_admin old.role
    then (if is_admin role then n else sub_one n)
    else (if is_admin role then add_one n else n)
replace_count none role n = if is_admin role then add_one n else n

abbrev is_some : Option UserData → Bool
is_some (some _) = true
is_some none = false

unfoldable pub insert_or_update : Text → Text → UserRole → UserManager → Bool × UserManager
unfolding replace_count
insert_or_update username password role m =
    let old = lookup username m.users in
    (
      is_some old,
      record {
        users = put username (record { password = password; role = role }) m.users;
        admin_count = replace_count old role m.admin_count;
      },
    )

-- The `fetch_update` of `update` and `delete`: one administrator less, unless it is the last.
unfoldable pub drop_admin : ℕ → Option ℕ
drop_admin n = if n == 1 then none else some (sub_one n)

-- The count after a user's role changes; `none` where the code refuses.
unfoldable pub count_role_change : (current new_role : UserRole) → ℕ → Option ℕ
unfolding drop_admin
count_role_change current new_role n =
    if is_admin current && not (is_admin new_role)
    then drop_admin n
    else if not (is_admin current) && is_admin new_role
    then some (add_one n)
    else some n

abbrev pub or_else : {A : Type 0} → Option A → A → A
or_else (some a) b = a
or_else none b = b

unfoldable store_update :
    Option ℕ → Text → UserData → UserManager → Result (Option UserRole) Unit × UserManager
store_update none username user m = (ok none, m)
store_update (some n) username user m =
    (ok (some user.role), record { users = put username user m.users; admin_count = n })

-- The user that `update` stores.
abbrev pub updated : UserData → Option Text → Option UserRole → UserData
updated user password role = record {
  password = or_else password user.password;
  role = or_else role user.role;
}

unfoldable update_at :
    Option UserData
    → Text
    → Option Text
    → Option UserRole
    → UserManager
    → Result (Option UserRole) Unit × UserManager
unfolding count_role_change store_update
update_at none username password role m = (err tt, m)
update_at (some user) username password role m =
    store_update (count_role_change user.role (or_else role user.role) m.admin_count) username
      (updated user password role) m

unfoldable pub update :
    Text → Option Text → Option UserRole → UserManager → Result (Option UserRole) Unit × UserManager
unfolding update_at
update username password role m = update_at (lookup username m.users) username password role m

unfoldable store_delete :
    Option ℕ → Text → UserRole → UserManager → Result (Option (Text × UserRole)) Unit × UserManager
store_delete none username role m = (ok none, m)
store_delete (some n) username role m =
    (ok (some (username, role)), record { users = without username m.users; admin_count = n })

unfoldable delete_at :
    Option UserData → Text → UserManager → Result (Option (Text × UserRole)) Unit × UserManager
unfolding drop_admin store_delete
delete_at none username m = (err tt, m)
delete_at (some user) username m =
    store_delete (if is_admin user.role then drop_admin m.admin_count else some m.admin_count)
      username user.role m

unfoldable pub delete : Text → UserManager → Result (Option (Text × UserRole)) Unit × UserManager
unfolding delete_at
delete username m = delete_at (lookup username m.users) username m

unfoldable pub count : UserManager → ℕ
count m = length m.users

unfoldable check_password : Option UserData → Text → Option UserRole
check_password none password = none
check_password (some user) password = if str_eq user.password password then some user.role else none

unfoldable pub try_login : Text → Text → UserManager → Option UserRole
unfolding check_password
try_login username password m = check_password (lookup username m.users) password

unfoldable pub take_snapshot : UserManager → List (Text × UserRole)
take_snapshot m = map (λ entry. (entry.0, entry.1.role)) m.users
