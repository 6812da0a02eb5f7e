-- ===== src/Server/Users/Runs.antt =====
-- Histories of the users of dust-devil/src/users.rs: changes that managers ask for, one after the other.
use dust_devil.Base.{
  ℕ, ◌+◌, ◌^◌, ◌≤◌, ◌<◌, ◌≡◌, Option, none, some, refl, ap, List, [], ◌∷◌, length, arith,
  if◌then◌else◌,
}
use dust_devil.Io.{Text}
use dust_devil.Protocol.Users.{UserRole}
use dust_devil.Server.Table.{lookup, weight}
use dust_devil.Server.Users.{
  UserManager, UserData, insert, update, delete, is_admin, drop_admin, insert_at, store_update,
  update_at, updated, or_else, store_delete, delete_at, count_role_change,
}
use dust_devil.Server.Users.Laws.{
  IsValid, tally, admins, tally_bound, insert-IsValid, update-IsValid, delete-IsValid,
}

-- What a manager asks for while the server runs.
pub data Change : Type 0 where
  inserting : (username password : Text) (role : UserRole) → Change
  updating : (username : Text) (password : Option Text) (role : Option UserRole) → Change
  deleting : (username : Text) → Change

unfoldable pub change : Change → UserManager → UserManager
change (inserting u p r) m = (insert u p r m).1
change (updating u p r) m = (update u p r m).1
change (deleting u) m = (delete u m).1

unfoldable pub run_changes : List Change → UserManager → UserManager
run_changes [] m = m
run_changes (c ∷ cs) m = run_changes cs (change c m)

insert_at_grows :
    (o : Option UserData) (k : Text) (u : UserData) (m : UserManager)
    → (insert_at o k u m).1.admin_count ≤ m.admin_count + 1
unfolding insert_at
insert_at_grows (some v) k u m = omega arith
insert_at_grows none k u m = ground arith

store_update_grows :
    (o : Option ℕ) (k : Text) (u : UserData) (m : UserManager)
    → ((n : ℕ) → o ≡ some n → n ≤ m.admin_count + 1)
    → (store_update o k u m).1.admin_count ≤ m.admin_count + 1
unfolding store_update
store_update_grows none k u m h = omega arith
store_update_grows (some n) k u m h = h n refl

role_change_grows :
    (c r : UserRole) (n k : ℕ)
    → (if is_admin c then 1 else 0) ≤ n
    → count_role_change c r n ≡ some k
    → k ≤ n + 1
unfolding count_role_change drop_admin
role_change_grows c r n k w e = ground (arith, w, e)

update_at_grows :
    (o : Option UserData) (k : Text) (p : Option Text) (r : Option UserRole) (m : UserManager)
    → lookup k m.users ≡ o
    → IsValid m
    → (update_at o k p r m).1.admin_count ≤ m.admin_count + 1
unfolding update_at weight
update_at_grows none k p r m e h = omega arith
update_at_grows (some old) k p r m e h = store_update_grows _ k (updated old p r) m (λ n q.
    role_change_grows old.role (or_else r old.role) m.admin_count n
      (omega (arith, tally_bound k m.users, ap (weight tally) e, h.counted)) q)

store_delete_grows :
    (o : Option ℕ) (k : Text) (r : UserRole) (m : UserManager)
    → ((n : ℕ) → o ≡ some n → n ≤ m.admin_count + 1)
    → (store_delete o k r m).1.admin_count ≤ m.admin_count + 1
unfolding store_delete
store_delete_grows none k r m h = omega arith
store_delete_grows (some n) k r m h = h n refl

delete_count_grows :
    (r : UserRole) (n k : ℕ)
    → (if is_admin r then 1 else 0) ≤ n
    → (if is_admin r then drop_admin n else some n) ≡ some k
    → k ≤ n + 1
unfolding drop_admin
delete_count_grows r n k w e = ground (arith, w, e)

delete_at_grows :
    (o : Option UserData) (k : Text) (m : UserManager)
    → lookup k m.users ≡ o
    → IsValid m
    → (delete_at o k m).1.admin_count ≤ m.admin_count + 1
unfolding delete_at weight
delete_at_grows none k m e h = omega arith
delete_at_grows (some old) k m e h = store_delete_grows _ k old.role m (λ n q.
    delete_count_grows old.role m.admin_count n
      (omega (arith, tally_bound k m.users, ap (weight tally) e, h.counted)) q)

pub change_grows :
    (c : Change) (m : UserManager) → IsValid m → (change c m).admin_count ≤ m.admin_count + 1
unfolding change insert update delete
change_grows (inserting u p r) m h =
    insert_at_grows (lookup u m.users) u (record { password = p; role = r }) m
change_grows (updating u p r) m h = update_at_grows (lookup u m.users) u p r m refl h
change_grows (deleting u) m h = delete_at_grows (lookup u m.users) u m refl h

insert_at_keeps :
    (o : Option UserData) (k : Text) (u : UserData) (m : UserManager)
    → m.admin_count + 1 < 2 ^ 32
    → 1 ≤ m.admin_count
    → 1 ≤ (insert_at o k u m).1.admin_count
unfolding insert_at
insert_at_keeps (some v) k u m b a = a
insert_at_keeps none k u m b a = ground (arith, b, a)

pub change-IsValid :
    (c : Change) (m : UserManager)
    → m.admin_count + 1 < 2 ^ 32
    → IsValid m
    → IsValid (change c m) × (1 ≤ m.admin_count → 1 ≤ (change c m).admin_count)
unfolding change insert
change-IsValid (inserting u p r) m b h = (
  insert-IsValid u p r m b h,
  insert_at_keeps (lookup u m.users) u (record { password = p; role = r }) m b,
)
change-IsValid (updating u p r) m b h = update-IsValid u p r m b h
change-IsValid (deleting u) m b h = delete-IsValid u m h

-- Whatever managers ask for, the users stay valid, and a server that has an administrator always
-- has one, as long as the counter has room for one more administrator with every request.
pub run_changes_lem :
    (cs : List Change) (m : UserManager)
    → m.admin_count + length cs < 2 ^ 32
    → IsValid m
    → 1 ≤ m.admin_count
    → IsValid (run_changes cs m) × (1 ≤ admins (run_changes cs m))
unfolding run_changes
run_changes_lem [] m b h a = (h, omega (arith, h.counted, a))
run_changes_lem (c ∷ cs) m b h a =
    let g = change_grows c m h in
    let v = change-IsValid c m (omega (arith, b)) h in
    run_changes_lem cs (change c m) (omega (arith, b, g)) v.0 (v.1 a)
