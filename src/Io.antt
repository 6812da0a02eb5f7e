-- ===== src/Io.antt =====
-- Input and output as the serializers of dust-devil-core see them: `std::io::Error` by its two
-- observations, the outcome of an operation, a reader over the bytes that the peer sends, and a
-- writer into memory. The children hold the two monads and what it means that they fit together.
pub mod Pieces
pub mod Reader
pub mod Writer
pub mod Wire
use Prim.Native.Char.{code}
use Prim.Native.String.{String}
use dust_devil.Base.{ℕ, ◌+◌, ◌/◌, ◌%◌, List, [], ◌∷◌, ltb, if◌then◌else◌}

-- A Rust string, as the list of its Unicode scalar values.
abbrev pub Text : Type 0
Text = List ℕ

abbrev pub Bytes : Type 0
Bytes = List ℕ

-- The text of a string literal.
abbrev pub text : String → Text
text String.[] = []
text (String.◌∷◌ c s) = code c ∷ text s

-- `{v}` of a format string, for a byte.
unfoldable pub show_u8 : ℕ → Text
show_u8 v =
    if ltb v 10
    then (48 + v) ∷ []
    else if ltb v 100
    then (48 + v / 10) ∷ (48 + v % 10) ∷ []
    else (48 + v / 100) ∷ (48 + v / 10 % 10) ∷ (48 + v % 10) ∷ []

-- `std::io::ErrorKind`; `unlisted` stands for the kinds that the program does not name.
pub data ErrorKind : Type 0 where
  not_found permission_denied connection_refused connection_reset connection_aborted : ErrorKind
  not_connected addr_in_use addr_not_available broken_pipe already_exists would_block : ErrorKind
  invalid_input invalid_data timed_out write_zero interrupted unsupported : ErrorKind
  unexpected_eof out_of_memory other unlisted : ErrorKind

-- `std::io::Error`: its `kind()` and its `to_string()`.
pub record Error : Type 0 where
  pub kind : ErrorKind
  pub message : Text

abbrev pub error_new : ErrorKind → Text → Error
error_new k m = record { kind = k; message = m }

-- `eof` is the error of kind UnexpectedEof that tokio makes where the input ends too early.
pub data Outcome (A : Type 0) : Type 0 where
  ok : A → Outcome A
  eof : Outcome A
  err : Error → Outcome A
