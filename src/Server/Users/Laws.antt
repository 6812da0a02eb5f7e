-- ===== src/Server/Users/Laws.antt =====
-- Well-formed users, under each operation of dust-devil/src/users.rs.
use dust_devil.Base.{
  ℕ, ◌+◌, ◌^◌, ◌≤◌, ◌<◌, ◌≡◌, refl, sym, ap, Option, none, some, [], ◌∷◌, if◌then◌else◌, arith,
}
use dust_devil.Io.{Text}
use dust_devil.Protocol.Users.{UserRole}
use dust_devil.Server.Table.{
  Table, IsMap, lookup, total, weight, put-IsMap, without-IsMap, total-put, total-without,
}
use dust_devil.Server.Users.{
  UserData, UserManager, is_admin, insert, insert_at, insert_or_update, replace_count, drop_admin,
  count_role_change, updated, store_update, update_at, update, store_delete, delete_at, delete, new,
}

-- The administrators among the users.
abbrev pub tally : UserData → ℕ
tally user = if is_admin user.role then 1 else 0

abbrev pub admins : UserManager → ℕ
admins m = total tally m.users

pub record IsValid (m : UserManager) : Type 0 where
  pub keys : IsMap m.users
  pub counted : m.admin_count ≡ admins m
  pub fits : m.admin_count < 2 ^ 32

pub tally_bound : (k : Text) (l : Table UserData) → weight tally (lookup k l) ≤ total tally l
unfolding lookup weight total
tally_bound k [] = omega arith
tally_bound k ((j, v) ∷ l) = ground (arith, tally_bound k l)

pub new-IsValid : IsValid new
unfolding total
new-IsValid = record { keys = tt; counted = refl; fits = omega arith }

insert_at-IsValid :
    (o : Option UserData) (k : Text) (u : UserData) (m : UserManager)
    → o ≡ lookup k m.users
    → m.admin_count + 1 < 2 ^ 32
    → IsValid m
    → IsValid (insert_at o k u m).1
unfolding insert_at weight
insert_at-IsValid (some v) k u m e b h = h
insert_at-IsValid none k u m e b h =
    let t = total-put tally k u m.users h.keys in
    record {
      keys = put-IsMap k u m.users h.keys;
      counted = ground (arith, t, ap (weight tally) e, h.counted);
      fits = ground (arith, b);
    }

-- `insert` keeps the users valid, while the counter has room for one more administrator.
pub insert-IsValid :
    (k p : Text) (r : UserRole) (m : UserManager)
    → m.admin_count + 1 < 2 ^ 32
    → IsValid m
    → IsValid (insert k p r m).1
unfolding insert
insert-IsValid k p r m b h =
    insert_at-IsValid (lookup k m.users) k (record { password = p; role = r }) m refl b h

replace_count_lem :
    (o : Option UserData) (r : UserRole) (n : ℕ)
    → n + 1 < 2 ^ 32
    → weight tally o ≤ n
    → (replace_count o r n + weight tally o ≡ n + (if is_admin r then 1 else 0))
      × (replace_count o r n < 2 ^ 32)
unfolding replace_count weight
replace_count_lem none r n b w = ground (arith, b)
replace_count_lem (some old) r n b w = ground (arith, b, w)

-- `insert_or_update` keeps the users valid, while the counter has room for one more administrator.
pub insert_or_update-IsValid :
    (k p : Text) (r : UserRole) (m : UserManager)
    → m.admin_count + 1 < 2 ^ 32
    → IsValid m
    → IsValid (insert_or_update k p r m).1
unfolding insert_or_update
insert_or_update-IsValid k p r m b h =
    let user : UserData = record { password = p; role = r } in
    let t = total-put tally k user m.users h.keys in
    let w = tally_bound k m.users in
    let c = replace_count_lem (lookup k m.users) r m.admin_count b (omega (arith, w, h.counted)) in
    record {
      keys = put-IsMap k user m.users h.keys;
      counted = omega (arith, t, c.0, h.counted);
      fits = c.1;
    }

pub insert_or_update_grows :
    (k p : Text) (r : UserRole) (m : UserManager)
    → m.admin_count + 1 < 2 ^ 32
    → IsValid m
    → (insert_or_update k p r m).1.admin_count ≤ m.admin_count + 1
unfolding insert_or_update
insert_or_update_grows k p r m b h =
    let w = tally_bound k m.users in
    let c = replace_count_lem (lookup k m.users) r m.admin_count b (omega (arith, w, h.counted)) in
    ground (arith, c.0)

role_change_lem :
    (c r : UserRole) (n k : ℕ)
    → n + 1 < 2 ^ 32
    → (if is_admin c then 1 else 0) ≤ n
    → count_role_change c r n ≡ some k
    → (k + (if is_admin c then 1 else 0) ≡ n + (if is_admin r then 1 else 0))
      × (k < 2 ^ 32)
      × (1 ≤ n → 1 ≤ k)
unfolding count_role_change drop_admin
role_change_lem c r n k b w e = ground (arith, b, w, e)

store_update-IsValid :
    (o : Option ℕ) (k : Text) (old u : UserData) (m : UserManager)
    → lookup k m.users ≡ some old
    → o ≡ count_role_change old.role u.role m.admin_count
    → m.admin_count + 1 < 2 ^ 32
    → IsValid m
    → IsValid (store_update o k u m).1
      × (1 ≤ m.admin_count → 1 ≤ (store_update o k u m).1.admin_count)
unfolding store_update weight
store_update-IsValid none k old u m e c b h = (h, λ x. x)
store_update-IsValid (some n) k old u m e c b h =
    let w = tally_bound k m.users in
    let t = total-put tally k u m.users h.keys in
    let q = ap (weight tally) e in
    let r =
      role_change_lem old.role u.role m.admin_count n b (omega (arith, w, q, h.counted)) (sym c) in
    (
      record {
        keys = put-IsMap k u m.users h.keys;
        counted = omega (arith, t, q, r.0, h.counted);
        fits = r.1;
      },
      r.2,
    )

update_at-IsValid :
    (o : Option UserData) (k : Text) (p : Option Text) (r : Option UserRole) (m : UserManager)
    → lookup k m.users ≡ o
    → m.admin_count + 1 < 2 ^ 32
    → IsValid m
    → IsValid (update_at o k p r m).1
      × (1 ≤ m.admin_count → 1 ≤ (update_at o k p r m).1.admin_count)
unfolding update_at
update_at-IsValid none k p r m e b h = (h, λ x. x)
update_at-IsValid (some old) k p r m e b h =
    store_update-IsValid _ k old (updated old p r) m e refl b h

-- `update` keeps the users valid, and does not take away the last administrator.
pub update-IsValid :
    (k : Text) (p : Option Text) (r : Option UserRole) (m : UserManager)
    → m.admin_count + 1 < 2 ^ 32
    → IsValid m
    → IsValid (update k p r m).1 × (1 ≤ m.admin_count → 1 ≤ (update k p r m).1.admin_count)
unfolding update
update-IsValid k p r m b h = update_at-IsValid (lookup k m.users) k p r m refl b h

delete_count_lem :
    (r : UserRole) (n k : ℕ)
    → n < 2 ^ 32
    → (if is_admin r then 1 else 0) ≤ n
    → (if is_admin r then drop_admin n else some n) ≡ some k
    → (k + (if is_admin r then 1 else 0) ≡ n) × (1 ≤ n → 1 ≤ k)
unfolding drop_admin
delete_count_lem r n k b w e = ground (arith, b, w, e)

store_delete-IsValid :
    (o : Option ℕ) (k : Text) (old : UserData) (m : UserManager)
    → lookup k m.users ≡ some old
    → o ≡ (if is_admin old.role then drop_admin m.admin_count else some m.admin_count)
    → IsValid m
    → IsValid (store_delete o k old.role m).1
      × (1 ≤ m.admin_count → 1 ≤ (store_delete o k old.role m).1.admin_count)
unfolding store_delete weight
store_delete-IsValid none k old m e c h = (h, λ x. x)
store_delete-IsValid (some n) k old m e c h =
    let w = tally_bound k m.users in
    let t = total-without tally k m.users h.keys in
    let q = ap (weight tally) e in
    let r =
      delete_count_lem old.role m.admin_count n h.fits (omega (arith, w, q, h.counted)) (sym c) in
    (
      record {
        keys = without-IsMap k m.users h.keys;
        counted = omega (arith, t, q, r.0, h.counted);
        fits = omega (arith, r.0, h.fits);
      },
      r.1,
    )

delete_at-IsValid :
    (o : Option UserData) (k : Text) (m : UserManager)
    → lookup k m.users ≡ o
    → IsValid m
    → IsValid (delete_at o k m).1 × (1 ≤ m.admin_count → 1 ≤ (delete_at o k m).1.admin_count)
unfolding delete_at
delete_at-IsValid none k m e h = (h, λ x. x)
delete_at-IsValid (some old) k m e h = store_delete-IsValid _ k old m e refl h

-- `delete` keeps the users valid, and does not take away the last administrator.
pub delete-IsValid :
    (k : Text) (m : UserManager)
    → IsValid m
    → IsValid (delete k m).1 × (1 ≤ m.admin_count → 1 ≤ (delete k m).1.admin_count)
unfolding delete
delete-IsValid k m h = delete_at-IsValid (lookup k m.users) k m refl h
