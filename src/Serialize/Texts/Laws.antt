-- ===== src/Serialize/Texts/Laws.antt =====
-- The texts of serialize.rs, written and read, and texts that are too long.
use dust_devil.Base.{ℕ, ◌≤◌, ◌<◌, ◌≡◌, refl, false, true, ltb, All, arith}
use dust_devil.Io.{Bytes, Text, text, ErrorKind, error_new, err}
use dust_devil.Io.Reader.{Reader, ◌>>=◌, pure, take_byte, read_exact}
use dust_devil.Io.Writer.{Writer, ◌>>◌, write_all}
use dust_devil.Io.Writer
use dust_devil.Io.Wire.{Wire, Wire-bind, read_exact-append}
use dust_devil.Utf8.{IsChar, encode_char, as_bytes, byte_len, from_utf8, decode_char}
use dust_devil.Utf8.RoundTrip.{from_utf8-as_bytes}
use dust_devil.Serialize.Numbers.Laws.{Wire-u8, Wire-uint}
use dust_devil.Serialize.Texts.{
  write_char, read_char, read_char_loop, write_string, checked_utf8, read_string,
  write_small_string, read_small_string,
}

-- A Rust string of at most `n` bytes.
pub record IsText (n : ℕ) (s : Text) : Type 0 where
  pub chars : All IsChar s
  pub fits : byte_len s ≤ n

-- The bytes of a text and the reader that checks as many.
read_checked : Text → ℕ → Reader Text
read_checked message n = do bytes ← read_exact n; checked_utf8 message (from_utf8 bytes)

Wire-checked :
    (message : Text) (s : Text)
    → All IsChar s
    → Wire (write_all (as_bytes s)) (read_checked message (byte_len s)) s
unfolding read_checked checked_utf8
Wire-checked message s h = record {
  bytes = as_bytes s;
  writes = λ out. unfold write_all in refl;
  reads = λ rest.
      unfold ◌>>=◌ pure byte_len in
      rw (read_exact-append (as_bytes s) rest, from_utf8-as_bytes s h);
}

within : (n m : ℕ) → n ≤ m → ltb m n ≡ false
within n m h = ground arith

beyond : (n m : ℕ) → m < n → ltb m n ≡ true
beyond n m h = ground arith

-- A text of characters and of 65535 bytes at most travels: what the writer appends, the reader takes
-- back as that text, whatever follows.
pub Wire-string : (s : Text) → IsText 65535 s → Wire (write_string s) read_string s
unfolding write_string read_string read_checked
Wire-string s h = rw (within (byte_len s) 65535 h.fits) (
    Wire-bind _ (Wire-uint 2 (byte_len s) (omega (arith, h.fits)))
      (Wire-checked (text "String is not valid UTF-8") s h.chars))

pub Wire-small_string : (s : Text) → IsText 255 s → Wire (write_small_string s) read_small_string s
unfolding write_small_string read_small_string read_checked
Wire-small_string s h = rw (within (byte_len s) 255 h.fits) (
    Wire-bind _ (Wire-u8 (byte_len s))
      (Wire-checked (text "Small string is not valid UTF-8") s h.chars))

-- A text of more than 65535 bytes is refused with InvalidData, and nothing of it is written.
pub write_string_too_long :
    (s : Text) (out : Bytes)
    → 65535 < byte_len s
    → write_string s out
      ≡ (err (error_new ErrorKind.invalid_data (text "String is too long (>= 64KB)")), out)
unfolding write_string
write_string_too_long s out h = rw (beyond (byte_len s) 65535 h) (unfold Writer.fail in refl)

-- A text of more than 255 bytes is refused by the short form, and nothing of it is written.
pub write_small_string_too_long :
    (s : Text) (out : Bytes)
    → 255 < byte_len s
    → write_small_string s out
      ≡ (err (error_new ErrorKind.invalid_data (text "Small string is too long (>= 256B)")), out)
unfolding write_small_string
write_small_string_too_long s out h = rw (beyond (byte_len s) 255 h) (unfold Writer.fail in refl)

-- A character travels: its UTF-8 bytes, which the reader tries one by one, give it back.
pub Wire-char : (c : ℕ) → IsChar c → Wire (write_char c) read_char c
unfolding write_char read_char
Wire-char c h = record {
  bytes = encode_char c;
  writes = λ out. unfold write_all in refl;
  reads = λ rest.
      unfold read_char_loop ◌>>=◌ take_byte from_utf8 decode_char encode_char pure in ground arith;
}
