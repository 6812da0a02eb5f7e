-- ===== src/Server/Startup/Laws.antt =====
-- The users at startup: dust-devil/src/users.rs and `create_user_manager` of server.rs.
use mathlib.Core.Path.{subst}
use dust_devil.Base.{
  ℕ, ◌+◌, ◌%◌, ◌^◌, ◌≤◌, ◌<◌, ◌≡◌, ◌≢◌, ◌↔◌, refl, sym, Option, none, some, List, [], ◌∷◌, length,
  ◌==◌, if◌then◌else◌, arith, inl, inr, Bool-cases,
}
use dust_devil.Io.{Text, text}
use dust_devil.Protocol.Users.{UserRole, admin, UsersLoadingError}
use dust_devil.Protocol.Events.{EventData}
use dust_devil.Serialize.Containers.{Result, ok, err}
use dust_devil.Server.Table.{lookup, weight, total-put, put-IsMap}
use dust_devil.Server.Users.{
  UserData, UserManager, is_admin, add_one, sub_one, new, insert, insert_at, insert_or_update,
  count,
}
use dust_devil.Server.Users.Laws.{
  IsValid, tally, tally_bound, new-IsValid, insert-IsValid, insert_or_update-IsValid,
  insert_or_update_grows,
}
use dust_devil.Server.UsersFile.{trim_start}
use dust_devil.Server.Startup.{
  was_admin, load_user, read_line, load_lines, from_lines, register_users, ensure_admin,
  create_user_manager, default_name, loaded_manager, refuse_empty,
}

load_count_lem :
    (o : Option UserData) (r : UserRole) (n : ℕ)
    → n + 1 < 2 ^ 32
    → weight tally o ≤ n
    → let k = if was_admin o then sub_one n else n in
      ((if is_admin r then add_one k else k) + weight tally o ≡ n + (if is_admin r then 1 else 0))
      × ((if is_admin r then add_one k else k) < 2 ^ 32)
      × ((if is_admin r then add_one k else k) ≤ n + 1)
unfolding weight
load_count_lem none r n b w = ground (arith, b)
load_count_lem (some old) r n b w = ground (arith, b, w)

pub load_user-IsValid :
    (u : Option (Text × UserData)) (m : UserManager)
    → m.admin_count + 1 < 2 ^ 32
    → IsValid m
    → IsValid (load_user u m) × ((load_user u m).admin_count ≤ m.admin_count + 1)
unfolding load_user
load_user-IsValid none m b h = (h, omega arith)
load_user-IsValid (some (k, user)) m b h =
    let t = total-put tally k user m.users h.keys in
    let w = tally_bound k m.users in
    let c =
      load_count_lem (lookup k m.users) user.role m.admin_count b (omega (arith, w, h.counted)) in
    (
      record {
        keys = put-IsMap k user m.users h.keys;
        counted = omega (arith, t, c.0, h.counted);
        fits = c.1;
      },
      c.2,
    )

unfoldable pub IsValidResult : Option (Result UserManager UsersLoadingError) → Type 0
IsValidResult (some (ok m)) = IsValid m
IsValidResult _ = Unit

load_found :
    ℕ
    → List Text
    → UserManager
    → Option (Result (Option (Text × UserData)) UsersLoadingError)
    → Option (Result UserManager UsersLoadingError)
load_found n lines m o = elim o [
  | none ↦ none
  | some (err e) ↦ some (err e)
  | some (ok user) ↦ load_lines ((n + 1) % 2 ^ 32) lines (load_user user m)
]

-- One line, when what is read from it is known.
load_round :
    (n : ℕ) (s : Text) (lines : List Text) (m : UserManager)
    (o : Option (Result (Option (Text × UserData)) UsersLoadingError))
    → read_line n (trim_start s 0) ≡ o
    → ((u : Option (Text × UserData))
        → IsValidResult (load_lines ((n + 1) % 2 ^ 32) lines (load_user u m)))
    → IsValidResult (load_lines n (s ∷ lines) m)
unfolding load_lines IsValidResult load_found
load_round n s lines m none e k = subst (λ o. IsValidResult (load_found n lines m o)) (sym e) tt
load_round n s lines m (some (err x)) e k =
    subst (λ o. IsValidResult (load_found n lines m o)) (sym e) tt
load_round n s lines m (some (ok u)) e k =
    subst (λ o. IsValidResult (load_found n lines m o)) (sym e) (k u)

load_lines-IsValid :
    (n : ℕ) (lines : List Text) (m : UserManager)
    → m.admin_count + length lines < 2 ^ 32
    → IsValid m
    → IsValidResult (load_lines n lines m)
unfolding load_lines IsValidResult
load_lines-IsValid n [] m b h = h
load_lines-IsValid n (s ∷ lines) m b h =
    load_round n s lines m (read_line n (trim_start s 0)) refl (λ u.
      let k = load_user-IsValid u m (omega (arith, b)) h in
      load_lines-IsValid ((n + 1) % 2 ^ 32) lines (load_user u m) (omega (arith, b, k.1)) k.0)

pub refuse_empty-IsValid :
    (r : Option (Result UserManager UsersLoadingError))
    → IsValidResult r
    → IsValidResult (refuse_empty r)
unfolding IsValidResult
refuse_empty-IsValid none h = tt
refuse_empty-IsValid (some (err e)) h = tt
refuse_empty-IsValid (some (ok m)) h = elim (Bool-cases (count m == 0)) [
  | inl e ↦ simp e tt
  | inr e ↦ simp e h
]

-- Users that are loaded from a file of fewer lines than the counter can count are valid: one entry
-- for each name, and the administrators counted rightly.
pub from_lines-IsValid :
    (lines : List Text) (m : UserManager)
    → length lines < 2 ^ 32
    → from_lines lines ≡ some (ok m)
    → IsValid m
unfolding from_lines IsValidResult
from_lines-IsValid lines m b e = subst IsValidResult e (
    refuse_empty-IsValid (load_lines 1 lines new)
      (load_lines-IsValid 1 lines new (omega (arith, b)) new-IsValid))

register_users-IsValid :
    (us : List (Text × UserData)) (ev : List EventData) (m : UserManager)
    → m.admin_count + length us < 2 ^ 32
    → IsValid m
    → IsValid (register_users us ev m).0
      × ((register_users us ev m).0.admin_count ≤ m.admin_count + length us)
unfolding register_users
register_users-IsValid [] ev m b h = (h, omega arith)
register_users-IsValid ((k, u) ∷ us) ev m b h =
    let v = insert_or_update-IsValid k u.password u.role m (omega (arith, b)) h in
    let g = insert_or_update_grows k u.password u.role m (omega (arith, b)) h in
    let rest =
      register_users-IsValid us _ (insert_or_update k u.password u.role m).1 (omega (arith, b, g))
        v in
    (rest.0, omega (arith, rest.1, g))

ensure_admin-IsValid :
    (m : UserManager) (ev : List EventData)
    → m.admin_count + 1 < 2 ^ 32
    → IsValid m
    → IsValid (ensure_admin (m, ev)).0
unfolding ensure_admin
ensure_admin-IsValid m ev b h = elim (Bool-cases (m.admin_count == 0)) [
  | inl e ↦ simp e (insert-IsValid default_name (text "admin") admin m b h)
  | inr e ↦ simp e h
]

-- The users that the server starts with are valid, where those that were loaded are and the counter
-- has room for an administrator more with every user of the command line, and for the default one.
pub create_user_manager-IsValid :
    (file : Text) (loaded : Result UserManager UsersLoadingError) (us : List (Text × UserData))
    → (loaded_manager loaded).admin_count + length us + 1 < 2 ^ 32
    → IsValid (loaded_manager loaded)
    → IsValid (create_user_manager file loaded us).0
unfolding create_user_manager
create_user_manager-IsValid file loaded us b h =
    let r = register_users-IsValid us _ (loaded_manager loaded) (omega (arith, b)) h in
    ensure_admin-IsValid _ _ (omega (arith, b, r.1)) r.0

insert_count :
    (o : Option UserData) (m : UserManager)
    → m.admin_count ≡ 0
    → ((insert_at o default_name (record { password = text "admin"; role = admin }) m).1.admin_count
        ≡ 0)
      ↔ (o ≢ none)
unfolding insert_at
insert_count none m h = ground (arith, h)
insert_count (some u) m h = ground (arith, h)

-- The end of startup leaves the counter of administrators at 0 exactly where it stands at 0 and a
-- user has the name of the default administrator.
pub ensure_admin_iff :
    (m : UserManager) (ev : List EventData)
    → ((ensure_admin (m, ev)).0.admin_count ≡ 0)
      ↔ ((m.admin_count ≡ 0) × (lookup default_name m.users ≢ none))
unfolding ensure_admin insert
ensure_admin_iff m ev = ground (arith, insert_count (lookup default_name m.users) m)
