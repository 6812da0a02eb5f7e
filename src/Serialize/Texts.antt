-- ===== src/Serialize/Texts.antt =====
-- Characters and texts of serialize.rs: `char`, `str` and `String` behind a `u16` length, and
-- `SmallWriteString` and `SmallReadString` behind a `u8` length.
pub mod Laws
use dust_devil.Base.{
  ℕ, zero, suc, ◌<◌, Option, none, some, List, [], ◌∷◌, ◌++◌, ltb, length, if◌then◌else◌,
}
use dust_devil.Io.{Bytes, Text, text, ErrorKind, error_new}
use dust_devil.Io.Reader.{Reader, ◌>>=◌, pure, take_byte, read_exact, fail}
use dust_devil.Io.Writer.{Writer, ◌>>◌, write_all}
use dust_devil.Io.Writer
use dust_devil.Utf8.{encode_char, as_bytes, byte_len, from_utf8}
use dust_devil.Serialize.Numbers.{write_u8, read_u8, write_u16, read_u16}

unfoldable pub write_char : ℕ → Writer
write_char c = write_all (encode_char c)

-- The text of a valid non-empty buffer has a first character.
abbrev first_char : Option Text → Reader ℕ → Reader ℕ
first_char (some (c ∷ s)) more = pure c
first_char (some []) more = more
first_char none more = more

-- The loop of `char::read`: `n` more bytes may be tried, `buf` holds those read so far.
unfoldable pub read_char_loop : ℕ → Bytes → Reader ℕ
read_char_loop zero buf = fail (error_new ErrorKind.invalid_data (text "char is not valid UTF-8"))
read_char_loop (suc n) buf = do
  b ← take_byte
  first_char (from_utf8 (buf ++ b ∷ [])) (read_char_loop n (buf ++ b ∷ []))

unfoldable pub read_char : Reader ℕ
read_char = read_char_loop 4 []

unfoldable pub write_string : Text → Writer
write_string s =
    if ltb 65535 (byte_len s)
    then Writer.fail (error_new ErrorKind.invalid_data (text "String is too long (>= 64KB)"))
    else do write_u16 (byte_len s); write_all (as_bytes s)

unfoldable pub checked_utf8 : Text → Option Text → Reader Text
checked_utf8 message none = fail (error_new ErrorKind.invalid_data message)
checked_utf8 message (some s) = pure s

unfoldable pub read_string : Reader Text
read_string = do
  len ← read_u16
  bytes ← read_exact len
  checked_utf8 (text "String is not valid UTF-8") (from_utf8 bytes)

unfoldable pub write_small_string : Text → Writer
write_small_string s =
    if ltb 255 (byte_len s)
    then Writer.fail (error_new ErrorKind.invalid_data (text "Small string is too long (>= 256B)"))
    else do write_u8 (byte_len s); write_all (as_bytes s)

unfoldable pub read_small_string : Reader Text
read_small_string = do
  len ← read_u8
  bytes ← read_exact len
  checked_utf8 (text "Small string is not valid UTF-8") (from_utf8 bytes)
