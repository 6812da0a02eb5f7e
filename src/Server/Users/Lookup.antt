-- ===== src/Server/Users/Lookup.antt =====
-- The operations of dust-devil/src/users.rs in terms of the users by name.
use dust_devil.Base.{
  ℕ, ◌≡◌, ◌+◌, ◌%◌, ◌^◌, refl, ap, Bool, true, false, ◌&&◌, not, Option, none, some, ◌↔◌, ◌==◌,
  if◌then◌else◌, arith, str_eq, str_eq_iff, Bool-cases, inl, inr,
}
use dust_devil.Io.{Text}
use dust_devil.Protocol.Users.{UserRole, admin, regular}
use dust_devil.Serialize.Containers.{Result, ok, err}
use dust_devil.Server.Table.{lookup, lookup-put, lookup-without}
use dust_devil.Server.Users.{
  UserData, UserManager, is_admin, add_one, insert, insert_at, insert_or_update, drop_admin,
  count_role_change, or_else, updated, store_update, update_at, update, store_delete, delete_at,
  delete, check_password, try_login,
}

-- The user of a name.
abbrev pub find : Text → UserManager → Option UserData
find j m = lookup j m.users

same_user :
    (user : UserData) (p : Text) (r : UserRole)
    → user.password ≡ p
    → user.role ≡ r
    → some user ≡ some (record { password = p; role = r })
same_user user p r e f = λ i. some (record { password = e i; role = f i })

check_password_iff :
    (o : Option UserData) (p : Text) (r : UserRole)
    → (check_password o p ≡ some r) ↔ (o ≡ some (record { password = p; role = r }))
unfolding check_password
check_password_iff none p r = ground arith
check_password_iff (some user) p r = (
  λ h. same_user user p r (ground (arith, (str_eq_iff user.password p).0, h)) (ground (arith, h)),
  λ h. ground (
    arith,
    (str_eq_iff user.password p).0,
    (str_eq_iff user.password p).1,
    ap (λ o. (or_else o user).password) h,
    ap (λ o. (or_else o user).role) h,
  ),
)

-- `try_login` gives a role exactly where the name has a user with that password and role.
pub try_login_iff :
    (u p : Text) (r : UserRole) (m : UserManager)
    → (try_login u p m ≡ some r) ↔ (find u m ≡ some (record { password = p; role = r }))
unfolding try_login
try_login_iff u p r m = check_password_iff (lookup u m.users) p r

-- Whether a user is there, with this password.
abbrev pub has_password : Option UserData → Text → Bool
has_password none p = false
has_password (some user) p = str_eq user.password p

check_password_lem :
    (f : Option UserRole → Bool) (o : Option UserData) (p : Text)
    → f none ≡ false
    → ((r : UserRole) → f (some r) ≡ true)
    → f (check_password o p) ≡ has_password o p
unfolding check_password
check_password_lem f none p n h = n
check_password_lem f (some user) p n h = elim (Bool-cases (str_eq user.password p)) [
  | inl e ↦ rw e (h user.role)
  | inr e ↦ rw e n
]

-- `try_login` gives a role exactly where `has_password` says so.
pub try_login_lem :
    (f : Option UserRole → Bool) (u p : Text) (m : UserManager)
    → f none ≡ false
    → ((r : UserRole) → f (some r) ≡ true)
    → f (try_login u p m) ≡ has_password (find u m) p
unfolding try_login
try_login_lem f u p m n h = check_password_lem f (lookup u m.users) p n h

-- The count of administrators with a user more.
abbrev pub count_with : UserRole → ℕ → ℕ
count_with admin n = (n + 1) % 2 ^ 32
count_with regular n = n

-- What an insertion of a user comes to, for the user that stood at the name: nothing changes where there
-- is one, and where there is none the name has the new user, no other name changes, and the user counts.
unfoldable pub IsInserted :
    Option UserData → Text → UserData → UserManager → Bool × UserManager → Type 0
IsInserted (some old) k user m result = result ≡ (false, m)
IsInserted none k user m result =
    (result.0 ≡ true)
    × (result.1.admin_count ≡ count_with user.role m.admin_count)
    × ((j : Text) → find j result.1 ≡ (if str_eq k j then some user else find j m))

insert_at-IsInserted :
    (o : Option UserData) (k : Text) (user : UserData) (m : UserManager)
    → IsInserted o k user m (insert_at o k user m)
unfolding IsInserted insert_at
insert_at-IsInserted (some old) k user m = refl
insert_at-IsInserted none k user m =
    (refl, counted user.role m.admin_count, λ j. lookup-put k j user m.users)
  where
    counted : (r : UserRole) (n : ℕ) → (if is_admin r then add_one n else n) ≡ count_with r n
    counted admin n = refl
    counted regular n = refl

-- `insert` answers no and leaves everything as it is where the name has a user; else it answers yes, the
-- name has the user with that password and role, no other name changes, and an administrator is counted,
-- modulo 2 ^ 32.
pub insert-IsInserted :
    (k p : Text) (r : UserRole) (m : UserManager)
    → IsInserted (find k m) k (record { password = p; role = r }) m (insert k p r m)
unfolding insert
insert-IsInserted k p r m =
    insert_at-IsInserted (lookup k m.users) k (record { password = p; role = r }) m

-- `insert_or_update` gives the name that user, whatever it had, and changes no other name.
find-insert_or_update :
    (k p : Text) (r : UserRole) (m : UserManager) (j : Text)
    → find j (insert_or_update k p r m).1
      ≡ (if str_eq k j then some (record { password = p; role = r }) else find j m)
unfolding insert_or_update
find-insert_or_update k p r m j = lookup-put k j (record { password = p; role = r }) m.users

store_update_lem :
    (o : Option ℕ) (k : Text) (u : UserData) (m : UserManager) (j : Text)
    → find j (store_update o k u m).1
      ≡ (if str_eq k j then elim o [ none ↦ find j m | some _ ↦ some u ] else find j m)
unfolding store_update
store_update_lem none k u m j = ground arith
store_update_lem (some n) k u m j = lookup-put k j u m.users

-- Whether a change from the first role to the second would leave no administrator.
unfoldable pub is_last_admin : (current new_role : UserRole) → UserManager → Bool
is_last_admin admin regular m = m.admin_count == 1
is_last_admin current new_role m = false

-- A value after a change to what is given, if anything is.
abbrev pub changed_to : {A : Type 0} → A → Option A → A
changed_to old none = old
changed_to old (some new) = new

-- What `update` answers, and the user it leaves at the name, for the user that stood there: nobody; the
-- same user, where the last administrator would become a regular one; or the user with the password and
-- the role that are given, each as it was where it is not.
unfoldable pub update_answer :
    Option UserData
    → Option Text
    → Option UserRole
    → UserManager
    → Result (Option UserRole) Unit × Option UserData
unfolding is_last_admin
update_answer none password role m = (err tt, none)
update_answer (some old) password role m =
    if is_last_admin old.role (changed_to old.role role) m then (ok none, some old) else (
      ok (some (changed_to old.role role)),
      some
          (record { password = changed_to old.password password; role = changed_to old.role role }),
    )

-- The options of the source are read as a change.
or_else-changed_to : {A : Type 0} (o : Option A) (a : A) → or_else o a ≡ changed_to a o
or_else-changed_to none a = refl
or_else-changed_to (some b) a = refl

last_admin_lem :
    (current new_role : UserRole) (m : UserManager)
    → (is_admin current && not (is_admin new_role) && (m.admin_count == 1))
      ≡ is_last_admin current new_role m
unfolding is_last_admin
last_admin_lem admin admin m = refl
last_admin_lem admin regular m = refl
last_admin_lem regular admin m = refl
last_admin_lem regular regular m = refl

update_at_lem :
    (o : Option UserData) (k : Text) (p : Option Text) (r : Option UserRole) (m : UserManager)
    (j : Text)
    → lookup k m.users ≡ o
    → ((update_at o k p r m).0 ≡ (update_answer o p r m).0)
      × (find j (update_at o k p r m).1
          ≡ (if str_eq k j then (update_answer o p r m).1 else find j m))
unfolding update_at update_answer store_update count_role_change drop_admin
update_at_lem none k p r m j e = ground (arith, e, str_eq_iff k j)
update_at_lem (some old) k p r m j e =
    rw
      (
        ← last_admin_lem old.role (changed_to old.role r) m,
        ← or_else-changed_to r old.role,
        ← or_else-changed_to p old.password,
      )
      (ground (arith, e, str_eq_iff k j, lookup-put k j (updated old p r) m.users))

-- `update` answers no and leaves nobody at the name where no user stood there; it answers that it cannot and
-- leaves that same user where the last administrator would become a regular user; and else it answers the
-- role that the user now has and leaves the user with the given password and role, each as it was where none
-- is given. It changes no other name.
pub find-update :
    (k : Text) (p : Option Text) (r : Option UserRole) (m : UserManager) (j : Text)
    → ((update k p r m).0 ≡ (update_answer (find k m) p r m).0)
      × (find j (update k p r m).1
          ≡ (if str_eq k j then (update_answer (find k m) p r m).1 else find j m))
unfolding update
find-update k p r m j = update_at_lem (lookup k m.users) k p r m j refl

-- What `delete` answers, and what it leaves at the name, for the user that stood there.
unfoldable pub delete_answer :
    Option UserData → Text → UserManager → Result (Option (Text × UserRole)) Unit × Option UserData
delete_answer none k m = (err tt, none)
delete_answer (some old) k m =
    if is_admin old.role && (m.admin_count == 1)
    then (ok none, some old)
    else (ok (some (k, old.role)), none)

delete_at_lem :
    (o : Option UserData) (k : Text) (m : UserManager) (j : Text)
    → lookup k m.users ≡ o
    → ((delete_at o k m).0 ≡ (delete_answer o k m).0)
      × (find j (delete_at o k m).1 ≡ (if str_eq k j then (delete_answer o k m).1 else find j m))
unfolding delete_at delete_answer store_delete drop_admin
delete_at_lem none k m j e = ground (arith, e, str_eq_iff k j)
delete_at_lem (some old) k m j e = ground (arith, e, str_eq_iff k j, lookup-without k j m.users)

-- `delete` answers, and leaves at the name, what the user that stood there says it should; it
-- changes no other name.
pub find-delete :
    (k : Text) (m : UserManager) (j : Text)
    → ((delete k m).0 ≡ (delete_answer (find k m) k m).0)
      × (find j (delete k m).1
          ≡ (if str_eq k j then (delete_answer (find k m) k m).1 else find j m))
unfolding delete
find-delete k m j = delete_at_lem (lookup k m.users) k m j refl
