-- ===== src/Serialize/Errors.antt =====
-- `std::io::Error` of serialize.rs: a byte for its kind, then its text.
pub mod Laws
use dust_devil.Base.{ℕ, ◌==◌, if◌then◌else◌}
use dust_devil.Io.{Error, ErrorKind, error_new}
use dust_devil.Io.Reader.{Reader, ◌>>=◌, pure}
use dust_devil.Io.Writer.{Writer, ◌>>◌}
use dust_devil.Serialize.Numbers.{write_u8, read_u8}
use dust_devil.Serialize.Texts.{write_string, read_string}

unfoldable pub kind_id : ErrorKind → ℕ
kind_id ErrorKind.not_found = 1
kind_id ErrorKind.permission_denied = 2
kind_id ErrorKind.connection_refused = 3
kind_id ErrorKind.connection_reset = 4
kind_id ErrorKind.connection_aborted = 5
kind_id ErrorKind.not_connected = 6
kind_id ErrorKind.addr_in_use = 7
kind_id ErrorKind.addr_not_available = 8
kind_id ErrorKind.broken_pipe = 9
kind_id ErrorKind.already_exists = 10
kind_id ErrorKind.would_block = 11
kind_id ErrorKind.invalid_input = 12
kind_id ErrorKind.invalid_data = 13
kind_id ErrorKind.timed_out = 14
kind_id ErrorKind.write_zero = 15
kind_id ErrorKind.interrupted = 16
kind_id ErrorKind.unsupported = 17
kind_id ErrorKind.unexpected_eof = 18
kind_id ErrorKind.out_of_memory = 19
kind_id ErrorKind.other = 20
kind_id ErrorKind.unlisted = 0

unfoldable pub kind_of_id : ℕ → ErrorKind
kind_of_id i =
    if i == 1
    then ErrorKind.not_found
    else if i == 2
    then ErrorKind.permission_denied
    else if i == 3
    then ErrorKind.connection_refused
    else if i == 4
    then ErrorKind.connection_reset
    else if i == 5
    then ErrorKind.connection_aborted
    else if i == 6
    then ErrorKind.not_connected
    else if i == 7
    then ErrorKind.addr_in_use
    else if i == 8
    then ErrorKind.addr_not_available
    else if i == 9
    then ErrorKind.broken_pipe
    else if i == 10
    then ErrorKind.already_exists
    else if i == 11
    then ErrorKind.would_block
    else if i == 12
    then ErrorKind.invalid_input
    else if i == 13
    then ErrorKind.invalid_data
    else if i == 14
    then ErrorKind.timed_out
    else if i == 15
    then ErrorKind.write_zero
    else if i == 16
    then ErrorKind.interrupted
    else if i == 17
    then ErrorKind.unsupported
    else if i == 18
    then ErrorKind.unexpected_eof
    else if i == 19
    then ErrorKind.out_of_memory
    else ErrorKind.other

unfoldable pub write_error : Error → Writer
write_error e = do write_u8 (kind_id e.kind); write_string e.message

unfoldable pub read_error : Reader Error
read_error = do id ← read_u8; message ← read_string; pure (error_new (kind_of_id id) message)
