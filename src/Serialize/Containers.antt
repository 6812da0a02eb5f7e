-- ===== src/Serialize/Containers.antt =====
-- The generic `impl`s of serialize.rs: `Option<T>`, `Result<T, E>`, lists behind a `u16` length and
-- `SmallWriteList`/`SmallReadList` behind a `u8` length. Pairs are read and written in order.
pub mod Laws
use dust_devil.Base.{
  ℕ, zero, suc, Option, none, some, List, [], ◌∷◌, ltb, ◌==◌, length, if◌then◌else◌,
}
use dust_devil.Io.{text, ErrorKind, error_new}
use dust_devil.Io.Reader.{Reader, ◌>>=◌, pure, fail}
use dust_devil.Io.Writer.{Writer, ◌>>◌, done}
use dust_devil.Io.Writer
use dust_devil.Serialize.Numbers.{write_u8, read_u8, write_u16, read_u16}

-- Rust's `Result`.
pub data Result (T E : Type 0) : Type 0 where
  ok : T → Result T E
  err : E → Result T E

module _ {T : Type 0} (write : T → Writer) where
  unfoldable pub write_option : Option T → Writer
  write_option (some v) = do write_u8 1; write v
  write_option none = write_u8 0

  -- The loop over the elements.
  unfoldable pub write_each : List T → Writer
  write_each [] = done
  write_each (x ∷ xs) = do write x; write_each xs

  unfoldable pub write_list : List T → Writer
  write_list xs =
      if ltb 65535 (length xs)
      then Writer.fail (error_new ErrorKind.invalid_data (text "List is too long (>= 64K)"))
      else do write_u16 (length xs); write_each xs

  unfoldable pub write_small_list : List T → Writer
  write_small_list xs =
      if ltb 255 (length xs)
      then Writer.fail (error_new ErrorKind.invalid_data (text "Small list is too long (>= 256)"))
      else do write_u8 (length xs); write_each xs

module _ {T : Type 0} (read : Reader T) where
  unfoldable pub option_of : ℕ → Reader (Option T)
  option_of has_value = if has_value == 0 then pure none else do v ← read; pure (some v)

  unfoldable pub read_option : Reader (Option T)
  unfolding option_of
  read_option = do has_value ← read_u8; option_of has_value

  -- `len` rounds, each of which pushes what it reads.
  unfoldable pub read_many : ℕ → Reader (List T)
  read_many zero = pure []
  read_many (suc n) = do x ← read; xs ← read_many n; pure (x ∷ xs)

  unfoldable pub read_list : Reader (List T)
  unfolding read_many
  read_list = do len ← read_u16; read_many len

  unfoldable pub read_small_list : Reader (List T)
  unfolding read_many
  read_small_list = do len ← read_u8; read_many len

module _ {T E : Type 0} where
  unfoldable pub write_result : (T → Writer) → (E → Writer) → Result T E → Writer
  write_result write_ok write_err (Result.ok v) = do write_u8 1; write_ok v
  write_result write_ok write_err (Result.err e) = do write_u8 0; write_err e

  unfoldable pub result_of : Reader T → Reader E → ℕ → Reader (Result T E)
  result_of read_ok read_err b =
      if b == 0 then (do e ← read_err; pure (Result.err e)) else do v ← read_ok; pure (Result.ok v)

  unfoldable pub read_result : Reader T → Reader E → Reader (Result T E)
  unfolding result_of
  read_result read_ok read_err = do b ← read_u8; result_of read_ok read_err b

  -- `(T0, T1)`; the longer tuples are do blocks of the same form.
  unfoldable pub write_pair : (T → Writer) → (E → Writer) → T × E → Writer
  write_pair write_0 write_1 (a, b) = do write_0 a; write_1 b

  unfoldable pub read_pair : Reader T → Reader E → Reader (T × E)
  read_pair read_0 read_1 = do a ← read_0; b ← read_1; pure (a, b)
