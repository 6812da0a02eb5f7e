-- ===== src/Server/Loading.antt =====
-- The whole of the users file: `UserManager::from` over the bytes of a reader, and
-- `UserManager::save_to` (dust-devil/src/users.rs).
pub mod Laws
pub mod Lines
pub mod Sorting
pub mod RoundTrip
use dust_devil.Base.{
  ℕ, Bool, true, false, Option, none, some, List, [], ◌∷◌, ◌++◌, length, ◌==◌, ltb, ◌||◌, ◌&&◌,
  if◌then◌else◌,
}
use dust_devil.Io.{Bytes, Text, Error}
use dust_devil.Utf8.{as_bytes}
use dust_devil.Protocol.Users.{UserRole, admin, regular, UsersLoadingError}
use dust_devil.Serialize.Containers.{Result, ok, err}
use dust_devil.Server.Users.{UserData, UserManager, new, count}
use dust_devil.Server.UsersFile.{trim_start, save_user}
use dust_devil.Server.Startup.{load_user, read_line, refuse_empty}
use dust_devil.Server.Lines.{
  ProcessFileLinesError, io, invalid_utf8, line_too_long, cancelled, Called, done, failed, Ended,
  finished, stopped, process_lines_utf8,
}

abbrev pub line_read :
    UserManager
    → Option (Result (Option (Text × UserData)) UsersLoadingError)
    → Called UserManager UsersLoadingError
line_read m none = Called.panicked
line_read m (some (err e)) = failed e
line_read m (some (ok user)) = done (load_user user m)

-- The function that `from` calls on each line.
unfoldable pub load_line : Text → ℕ → UserManager → Called UserManager UsersLoadingError
load_line s line_number m = line_read m (read_line line_number (trim_start s 0))

unfoldable pub load_error : ProcessFileLinesError UsersLoadingError → UsersLoadingError
load_error (io e) = UsersLoadingError.io e
load_error (invalid_utf8 n byte_at) = UsersLoadingError.invalid_utf8 n byte_at
load_error (line_too_long n byte_at) = UsersLoadingError.line_too_long n byte_at
load_error (cancelled n e) = e

-- What `from` returns after the lines: `none` after a panic.
unfoldable pub after_lines :
    Ended (ℕ × UserManager) UsersLoadingError → Option (Result UserManager UsersLoadingError)
unfolding load_error
after_lines (finished (n, m)) = refuse_empty (some (ok m))
after_lines (stopped e) = some (err (load_error e))
after_lines Ended.panicked = none

-- `none` where the fuel does not last.
unfoldable pub from :
    (sizes : ℕ → ℕ) (ends : Option Error) (fuel : ℕ)
    → Bytes
    → Option (Option (Result UserManager UsersLoadingError))
unfolding after_lines
from sizes ends fuel src = elim (process_lines_utf8 load_line sizes ends fuel new src) [
  | none ↦ none
  | some r ↦ some (after_lines r)
]

-- `Ord` of strings, by their bytes: `x` is not greater than `y`.
unfoldable pub bytes_le : Bytes → Bytes → Bool
bytes_le [] ys = true
bytes_le (x ∷ xs) [] = false
bytes_le (x ∷ xs) (y ∷ ys) = ltb x y || ((x == y) && bytes_le xs ys)

abbrev role_le : UserRole → UserRole → Bool → Bool
role_le admin regular b = true
role_le regular admin b = false
role_le admin admin b = b
role_le regular regular b = b

-- The comparison of `save_to`, not `Greater`.
unfoldable pub user_le : Text × UserData → Text × UserData → Bool
unfolding bytes_le
user_le (x, u) (y, v) = role_le u.role v.role (bytes_le (as_bytes x) (as_bytes y))

unfoldable pub insert_sorted : Text × UserData → List (Text × UserData) → List (Text × UserData)
insert_sorted x [] = x ∷ []
insert_sorted x (y ∷ ys) = if user_le x y then x ∷ (y ∷ ys) else y ∷ insert_sorted x ys

-- `sort_by`, which is stable.
unfoldable pub sort_users : List (Text × UserData) → List (Text × UserData)
unfolding insert_sorted
sort_users [] = []
sort_users (x ∷ xs) = insert_sorted x (sort_users xs)

-- The loop over the sorted users.
unfoldable pub save_users : (is_first : Bool) → List (Text × UserData) → Bytes
save_users is_first [] = []
save_users is_first (x ∷ xs) =
    let rest = save_user x ++ save_users false xs in if is_first then rest else b'\n' ∷ rest

-- What is written, and the count of users that is returned.
unfoldable pub save_to : UserManager → Bytes × ℕ
unfolding save_users sort_users
save_to m = (save_users true (sort_users m.users), count m)
