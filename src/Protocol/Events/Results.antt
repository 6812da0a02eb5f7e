-- ===== src/Protocol/Events/Results.antt =====
-- The `Option` and `Result` values inside events: their serialization is that of the generic
-- `impl`s of serialize.rs at these types.
use dust_devil.Base.{ℕ, ◌<◌, ◌^◌, Option, none, some}
use dust_devil.Io.{Error}
use dust_devil.Io.Reader.{Reader}
use dust_devil.Io.Writer.{Writer}
use dust_devil.Io.Wire.{Wire, Wire-pure}
use dust_devil.Serialize.Numbers.{write_u64, read_u64, write_unit, read_unit}
use dust_devil.Serialize.Numbers.Laws.{Wire-uint}
use dust_devil.Serialize.Addresses.{SocketAddr, IsSocketAddr, write_socket_addr, read_socket_addr}
use dust_devil.Serialize.Addresses.Laws.{Wire-socket_addr}
use dust_devil.Serialize.Containers.{Result, write_option, read_option, write_result, read_result}
use dust_devil.Serialize.Containers.Laws.{AllOption, AllResult, Wire-option, Wire-ok, Wire-err}
use dust_devil.Serialize.Errors.{write_error, read_error}
use dust_devil.Serialize.Errors.Laws.{error_seen, Wire-error}
use dust_devil.Serialize.Texts.Laws.{IsText}
use dust_devil.Protocol.Users.{UsersLoadingError, write_loading_error, read_loading_error}
use dust_devil.Protocol.Users.Laws.{IsLoadingError, loading_error_seen, Wire-loading_error}

unfoldable pub write_optional_addr : Option SocketAddr → Writer
write_optional_addr = write_option write_socket_addr

unfoldable pub read_optional_addr : Reader (Option SocketAddr)
read_optional_addr = read_option read_socket_addr

unfoldable pub write_loaded : Result ℕ UsersLoadingError → Writer
write_loaded = write_result write_u64 write_loading_error

unfoldable pub read_loaded : Reader (Result ℕ UsersLoadingError)
read_loaded = read_result read_u64 read_loading_error

unfoldable pub write_saved : Result ℕ Error → Writer
write_saved = write_result write_u64 write_error

unfoldable pub read_saved : Reader (Result ℕ Error)
read_saved = read_result read_u64 read_error

unfoldable pub write_finished : Result (Unit {0}) Error → Writer
write_finished = write_result write_unit write_error

unfoldable pub read_finished : Reader (Result (Unit {0}) Error)
read_finished = read_result read_unit read_error

abbrev pub IsOptionalAddr : Option SocketAddr → Type 0
IsOptionalAddr = AllOption IsSocketAddr

abbrev pub IsLoaded : Result ℕ UsersLoadingError → Type 0
IsLoaded = AllResult (λ n. n < 256 ^ 8) IsLoadingError

abbrev pub IsSaved : Result ℕ Error → Type 0
IsSaved = AllResult (λ n. n < 256 ^ 8) (λ e. IsText 65535 e.message)

abbrev pub IsFinished : Result (Unit {0}) Error → Type 0
IsFinished = AllResult (λ _. Unit {0}) (λ e. IsText 65535 e.message)

unfoldable pub loaded_seen : Result ℕ UsersLoadingError → Result ℕ UsersLoadingError
loaded_seen (Result.ok n) = Result.ok n
loaded_seen (Result.err e) = Result.err (loading_error_seen e)

unfoldable pub saved_seen : Result ℕ Error → Result ℕ Error
saved_seen (Result.ok n) = Result.ok n
saved_seen (Result.err e) = Result.err (error_seen e)

unfoldable pub finished_seen : Result (Unit {0}) Error → Result (Unit {0}) Error
finished_seen (Result.ok u) = Result.ok u
finished_seen (Result.err e) = Result.err (error_seen e)

pub Wire-optional_addr :
    (o : Option SocketAddr) → IsOptionalAddr o → Wire (write_optional_addr o) read_optional_addr o
unfolding write_optional_addr read_optional_addr
Wire-optional_addr none h = Wire-option _ _ none tt
Wire-optional_addr (some a) h = Wire-option _ _ (some a) (Wire-socket_addr a h)

pub Wire-loaded :
    (r : Result ℕ UsersLoadingError)
    → IsLoaded r
    → Wire (write_loaded r) read_loaded (loaded_seen r)
unfolding write_loaded read_loaded loaded_seen
Wire-loaded (Result.ok n) h = Wire-ok _ _ _ _ (Wire-uint 8 n h)
Wire-loaded (Result.err e) h = Wire-err _ _ _ _ (Wire-loading_error e h)

pub Wire-saved : (r : Result ℕ Error) → IsSaved r → Wire (write_saved r) read_saved (saved_seen r)
unfolding write_saved read_saved saved_seen
Wire-saved (Result.ok n) h = Wire-ok _ _ _ _ (Wire-uint 8 n h)
Wire-saved (Result.err e) h = Wire-err _ _ _ _ (Wire-error e h)

pub Wire-finished :
    (r : Result (Unit {0}) Error)
    → IsFinished r
    → Wire (write_finished r) read_finished (finished_seen r)
unfolding write_finished read_finished finished_seen
Wire-finished (Result.ok u) h = Wire-ok _ _ _ _ (Wire-pure tt)
Wire-finished (Result.err e) h = Wire-err _ _ _ _ (Wire-error e h)

pub ruleset result_rules = (Wire-optional_addr, Wire-loaded, Wire-saved, Wire-finished)
