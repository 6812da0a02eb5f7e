-- ===== src/Server/Loading/RoundTrip.antt =====
-- The users file of dust-devil/src/users.rs, saved and loaded again.
use dust_devil.Base.{
  ℕ, suc, ◌<◌, ◌≡◌, refl, ap, ◌∙◌, true, false, Option, none, some, List, [], ◌∷◌, length, arith,
}
use dust_devil.Io.{Text}
use dust_devil.Serialize.Containers.{ok}
use dust_devil.Server.Table.{lookup, put}
use dust_devil.Server.Users.{UserData, UserManager, new, count}
use dust_devil.Server.Users.Laws.{IsValid}
use dust_devil.Server.UsersFile.{save_user}
use dust_devil.Server.Startup.{load_user}
use dust_devil.Server.Lines.{finished}
use dust_devil.Server.Lines.Split.{split_from, each_called}
use dust_devil.Server.Loading.{
  load_line, after_lines, from, insert_sorted, sort_users, save_users, save_to,
}
use dust_devil.Server.Loading.Laws.{from_lem}
use dust_devil.Server.Loading.Lines.{
  AllKeep, load_all, lines_after, each_called-save_users, save_user-NotBreak, split_from-line,
}
use dust_devil.Server.Loading.Sorting.{
  or_else, lookup-load_all, lookup-sort_users, sort_users-AllKeep, total-sort_users, count-load_all,
  given_users, kept,
}

or_else-none : (o : Option UserData) → or_else o none ≡ o
unfolding or_else
or_else-none (some u) = refl
or_else-none none = refl

each_called-save_all :
    (us : List (Text × UserData))
    → AllKeep us
    → 0 < length us
    → let parts = split_from [] (save_users true us) in
      each_called load_line none 1 new parts.0 parts.1
      ≡ finished (lines_after 1 us, load_all us new)
unfolding save_users
each_called-save_all [] h g = absurd (omega arith)
each_called-save_all (x ∷ us) h g =
    ap (λ parts. each_called load_line none 1 new parts.0 parts.1)
      (split_from-line [] (save_user x) (save_users false us) (save_user-NotBreak x.0 x.1 h.0))
    ∙ each_called-save_users x us 1 new h.0 h.1

accepted : (n : ℕ) (m : UserManager) → 0 < count m → after_lines (finished (n, m)) ≡ some (ok m)
unfolding after_lines
accepted n m h = ground (arith, h)

length-insert_sorted :
    (x : Text × UserData) (us : List (Text × UserData))
    → length (insert_sorted x us) ≡ suc (length us)
unfolding insert_sorted
length-insert_sorted x [] = refl
length-insert_sorted x (y ∷ us) = ground (arith, length-insert_sorted x us)

given_sorted : (us : List (Text × UserData)) → 0 < length us → 0 < length (sort_users us)
unfolding sort_users
given_sorted [] h = h
given_sorted (x ∷ us) h = omega (arith, length-insert_sorted x (sort_users us))

kept_all : (us : List (Text × UserData)) → 0 < length us → 0 < count (load_all us new)
unfolding load_user put count
kept_all [] h = absurd (omega arith)
kept_all (x ∷ us) h = kept us (load_user (some x) new) (omega arith)

-- Users that are valid, at least one, with names and passwords of 1 to 255 bytes, no line break in
-- either and no backslash in a password, are the same after they have been saved and loaded again,
-- however the bytes of the file come in pieces: every name has the same user or none, and the
-- count of administrators is the same.
pub from-save_to :
    (m : UserManager) (sizes : ℕ → ℕ) (fuel : ℕ)
    → IsValid m
    → AllKeep m.users
    → 0 < count m
    → length (save_to m).0 < fuel
    → (m' : UserManager) × (from sizes none fuel (save_to m).0 ≡ some (some (ok m')))
      × ((name : Text) → lookup name m'.users ≡ lookup name m.users)
      × (m'.admin_count ≡ m.admin_count)
unfolding save_to count lookup
from-save_to m sizes fuel v k g b =
    let us = sort_users m.users in
    let sorted = lookup-sort_users m.users v.keys in
    let some_user = given_sorted m.users g in
    (
      load_all us new,
      from_lem sizes none fuel (save_users true us) b
          ∙ ap (λ r. some (after_lines r))
              (each_called-save_all us (sort_users-AllKeep m.users k) some_user)
          ∙ ap some (accepted (lines_after 1 us) (load_all us new) (kept_all us some_user)),
      λ name. lookup-load_all name us new sorted.0 ∙ or_else-none (lookup name us) ∙ sorted.1 name,
      omega (
        arith,
        count-load_all us new sorted.0 (given_users us)
            (omega (arith, total-sort_users m.users, v.counted, v.fits)),
        total-sort_users m.users,
        v.counted,
      ),
    )
