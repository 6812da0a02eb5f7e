-- ===== src/Server/Loading/Sorting.antt =====
-- The order in which `save_to` of dust-devil/src/users.rs writes the users, and the map of users that
-- is loaded in that order.
use dust_devil.Base.{
  ◌+◌, ◌^◌, ◌<◌, ◌≡◌, refl, ◌∙◌, Option, none, some, List, [], ◌∷◌, arith, Bool-cases, inl, inr,
  All, str_eq_iff,
}
use dust_devil.Io.{Text}
use dust_devil.Server.Table.{IsMap, lookup, put, lookup-put, total}
use dust_devil.Server.Users.{UserData, UserManager, new, count}
use dust_devil.Server.Users.Laws.{tally}
use dust_devil.Server.Startup.{load_user}
use dust_devil.Server.Loading.{user_le, insert_sorted, sort_users}
use dust_devil.Server.Loading.Lines.{Keeps, AllKeep, load_all}

unfoldable pub or_else : Option UserData → Option UserData → Option UserData
or_else (some u) o = some u
or_else none o = o

pub lookup-load_all :
    (k : Text) (us : List (Text × UserData)) (m : UserManager)
    → IsMap us
    → lookup k (load_all us m).users ≡ or_else (lookup k us) (lookup k m.users)
unfolding or_else lookup load_user
lookup-load_all k [] m h = refl
lookup-load_all k ((j, u) ∷ us) m h =
    lookup-load_all k us (load_user (some (j, u)) m) h.1
    ∙ ground (arith, lookup-put j k u m.users, str_eq_iff j k, h.0)

module _ (j : Text) (u : UserData) where
  lookup-insert_sorted :
      (k : Text) (us : List (Text × UserData))
      → lookup j us ≡ none
      → lookup k (insert_sorted (j, u) us) ≡ lookup k ((j, u) ∷ us)
  unfolding lookup insert_sorted
  lookup-insert_sorted k [] h = refl
  lookup-insert_sorted k ((i, v) ∷ us) h =
      ground (arith, lookup-insert_sorted k us, str_eq_iff i j, str_eq_iff j k, str_eq_iff i k)

  insert_sorted-IsMap :
      (us : List (Text × UserData))
      → lookup j us ≡ none
      → IsMap us
      → IsMap (insert_sorted (j, u) us)
  unfolding lookup insert_sorted
  insert_sorted-IsMap [] h m = (h, tt)
  insert_sorted-IsMap ((i, v) ∷ us) h m = ground (
    arith,
    h,
    m.0,
    m.1,
    insert_sorted-IsMap us,
    lookup-insert_sorted i us,
    str_eq_iff i j,
    str_eq_iff j i,
  )

  insert_sorted-AllKeep :
      (us : List (Text × UserData)) → Keeps j u → AllKeep us → AllKeep (insert_sorted (j, u) us)
  unfolding insert_sorted
  insert_sorted-AllKeep [] k ks = (k, tt)
  insert_sorted-AllKeep (y ∷ us) k ks = elim (Bool-cases (user_le (j, u) y)) [
    | inl e ↦ rw e (k, ks)
    | inr e ↦ rw e (ks.0, insert_sorted-AllKeep us k ks.1)
  ]

  total-insert_sorted :
      (us : List (Text × UserData))
      → total tally (insert_sorted (j, u) us) ≡ tally u + total tally us
  unfolding insert_sorted total
  total-insert_sorted [] = refl
  total-insert_sorted (y ∷ us) = elim (Bool-cases (user_le (j, u) y)) [
    | inl e ↦ rw e refl
    | inr e ↦ rw e (omega (arith, total-insert_sorted us))
  ]

  -- A key that another list of entries lacks is still lacking there with one more.
  Absent-put :
      (m : UserManager) (us : List (Text × UserData))
      → lookup j us ≡ none
      → All (λ x. lookup x.0 m.users ≡ none) us
      → All (λ x. lookup x.0 (load_user (some (j, u)) m).users ≡ none) us
  unfolding lookup load_user
  Absent-put m [] h a = tt
  Absent-put m ((i, v) ∷ us) h a = (
    ground (arith, h, a.0, lookup-put j i u m.users, str_eq_iff i j, str_eq_iff j i),
    Absent-put m us (ground (arith, h)) a.1,
  )

pub lookup-sort_users :
    (us : List (Text × UserData))
    → IsMap us
    → IsMap (sort_users us) × ((k : Text) → lookup k (sort_users us) ≡ lookup k us)
unfolding sort_users lookup
lookup-sort_users [] h = (tt, λ k. refl)
lookup-sort_users ((j, u) ∷ us) h =
    let (m, same) = lookup-sort_users us h.1 in
    (
      insert_sorted-IsMap j u (sort_users us) (same j ∙ h.0) m,
      λ k. ground (arith, lookup-insert_sorted j u k (sort_users us) (same j ∙ h.0), same k),
    )

pub sort_users-AllKeep : (us : List (Text × UserData)) → AllKeep us → AllKeep (sort_users us)
unfolding sort_users
sort_users-AllKeep [] h = tt
sort_users-AllKeep ((j, u) ∷ us) h =
    insert_sorted-AllKeep j u (sort_users us) h.0 (sort_users-AllKeep us h.1)

pub total-sort_users : (us : List (Text × UserData)) → total tally (sort_users us) ≡ total tally us
unfolding sort_users total
total-sort_users [] = refl
total-sort_users ((j, u) ∷ us) =
    omega (arith, total-insert_sorted j u (sort_users us), total-sort_users us)

pub count-load_all :
    (us : List (Text × UserData)) (m : UserManager)
    → IsMap us
    → All (λ x. lookup x.0 m.users ≡ none) us
    → m.admin_count + total tally us < 2 ^ 32
    → (load_all us m).admin_count ≡ m.admin_count + total tally us
unfolding total load_user
count-load_all [] m h a b = omega arith
count-load_all ((j, u) ∷ us) m h a b =
    ground (
      arith,
      a.0,
      b,
      count-load_all us (load_user (some (j, u)) m) h.1 (Absent-put j u m us h.0 a.1),
    )

pub given_users : (us : List (Text × UserData)) → All (λ x. lookup x.0 new.users ≡ none) us
unfolding lookup
given_users [] = tt
given_users (x ∷ us) = (refl, given_users us)

pub kept : (us : List (Text × UserData)) (m : UserManager) → 0 < count m → 0 < count (load_all us m)
unfolding load_user put count
kept [] m h = h
kept ((j, u) ∷ us) m h = kept us (load_user (some (j, u)) m) (omega arith)
