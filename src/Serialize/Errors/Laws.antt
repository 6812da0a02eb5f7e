-- ===== src/Serialize/Errors/Laws.antt =====
-- `std::io::Error` of serialize.rs, written and read.
use dust_devil.Base.{◌≡◌, refl}
use dust_devil.Io.{Error, ErrorKind, error_new}
use dust_devil.Io.Wire.{Wire, Wire-bind, Wire-map}
use dust_devil.Serialize.Numbers.Laws.{Wire-u8}
use dust_devil.Serialize.Texts.Laws.{IsText, Wire-string}
use dust_devil.Serialize.Errors.{kind_id, kind_of_id, write_error, read_error}

-- The kind that the other side sees.
unfoldable pub kind_seen : ErrorKind → ErrorKind
kind_seen ErrorKind.unlisted = ErrorKind.other
kind_seen k = k

unfoldable pub error_seen : Error → Error
unfolding kind_seen
error_seen e = error_new (kind_seen e.kind) e.message

kind_of_id-kind_id : (k : ErrorKind) → kind_of_id (kind_id k) ≡ kind_seen k
unfolding kind_of_id kind_id kind_seen
kind_of_id-kind_id ErrorKind.unlisted = refl
kind_of_id-kind_id k = refl

-- An I/O error with a text short enough to be written travels, but for a kind that has no number,
-- which arrives as Other.
pub Wire-error :
    (e : Error) → IsText 65535 e.message → Wire (write_error e) read_error (error_seen e)
unfolding write_error read_error error_seen
Wire-error e h = rw (← kind_of_id-kind_id e.kind) (
    Wire-bind _ (Wire-u8 (kind_id e.kind))
      (Wire-map (λ m. error_new (kind_of_id (kind_id e.kind)) m) (Wire-string e.message h)))
