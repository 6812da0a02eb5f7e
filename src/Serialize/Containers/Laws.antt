-- ===== src/Serialize/Containers/Laws.antt =====
-- The generic `impl`s of serialize.rs, written and read.
use dust_devil.Base.{
  ℕ, ◌≤◌, ◌<◌, ◌≡◌, refl, true, false, Option, none, some, List, [], ◌∷◌, ltb, length, All, arith,
}
use dust_devil.Io.{Bytes, text, ErrorKind, error_new, err}
use dust_devil.Io.Reader.{Reader}
use dust_devil.Io.Writer.{Writer}
use dust_devil.Io.Writer
use dust_devil.Io.Wire.{Wire, Wire-bind, Wire-pure, Wire-map, Wire-end}
use dust_devil.Serialize.Numbers.Laws.{Wire-u8, Wire-uint}
use dust_devil.Serialize.Containers.{
  Result, write_option, read_option, write_each, read_many, write_list, read_list, write_small_list,
  read_small_list, write_result, read_result, write_pair, read_pair,
}

-- What holds of the value inside, if there is one.
abbrev pub AllOption : {T : Type 0} → (T → Type 0) → Option T → Type 0
AllOption P none = Unit {0}
AllOption P (some v) = P v

abbrev pub AllResult : {T E : Type 0} → (T → Type 0) → (E → Type 0) → Result T E → Type 0
AllResult P Q (Result.ok v) = P v
AllResult P Q (Result.err e) = Q e

module _ {T : Type 0} (write : T → Writer) (read : Reader T) where
  pub Wire-option :
      (o : Option T)
      → AllOption (λ v. Wire (write v) read v) o
      → Wire (write_option write o) (read_option read) o
  unfolding write_option read_option
  Wire-option none h = Wire-end _ (Wire-u8 0) refl
  Wire-option (some v) h = Wire-bind _ (Wire-u8 1) (Wire-map some h)

  Wire-each :
      (xs : List T)
      → All (λ x. Wire (write x) read x) xs
      → Wire (write_each write xs) (read_many read (length xs)) xs
  unfolding write_each read_many
  Wire-each [] h = Wire-pure []
  Wire-each (x ∷ xs) (hx, hxs) = Wire-bind _ hx (Wire-map (λ l. x ∷ l) (Wire-each xs hxs))

  within : (n m : ℕ) → n ≤ m → ltb m n ≡ false
  within n m h = ground arith

  -- A list of 65535 elements at most, each of which travels, travels.
  pub Wire-list :
      (xs : List T)
      → length xs ≤ 65535
      → All (λ x. Wire (write x) read x) xs
      → Wire (write_list write xs) (read_list read) xs
  unfolding write_list read_list
  Wire-list xs hn h =
      rw (within (length xs) 65535 hn)
        (Wire-bind _ (Wire-uint 2 (length xs) (omega arith)) (Wire-each xs h))

  pub Wire-small_list :
      (xs : List T)
      → length xs ≤ 255
      → All (λ x. Wire (write x) read x) xs
      → Wire (write_small_list write xs) (read_small_list read) xs
  unfolding write_small_list read_small_list
  Wire-small_list xs hn h =
      rw (within (length xs) 255 hn) (Wire-bind _ (Wire-u8 (length xs)) (Wire-each xs h))

  -- A list of more than 65535 elements is refused with InvalidData, and nothing of it is written.
  pub write_list_too_long :
      (xs : List T) (out : Bytes)
      → 65535 < length xs
      → write_list write xs out
        ≡ (err (error_new ErrorKind.invalid_data (text "List is too long (>= 64K)")), out)
  unfolding write_list
  write_list_too_long xs out h =
      let e : ltb 65535 (length xs) ≡ true = ground arith in rw e (unfold Writer.fail in refl)

module _ {T E : Type 0} (write_0 : T → Writer) (read_0 : Reader T) (write_1 : E → Writer)
    (read_1 : Reader E) where
  -- The values that arrive, `w` and `f`, may differ from those that were sent.
  pub Wire-ok :
      {v w : T}
      → Wire (write_0 v) read_0 w
      → Wire (write_result write_0 write_1 (Result.ok v)) (read_result read_0 read_1) (Result.ok w)
  unfolding write_result read_result
  Wire-ok h = Wire-bind _ (Wire-u8 1) (Wire-map Result.ok h)

  pub Wire-err :
      {e f : E}
      → Wire (write_1 e) read_1 f
      → Wire
          (write_result write_0 write_1 (Result.err e))
          (read_result read_0 read_1)
          (Result.err f)
  unfolding write_result read_result
  Wire-err h = Wire-bind _ (Wire-u8 0) (Wire-map Result.err h)

  pub Wire-pair :
      {a : T} {b : E}
      → Wire (write_0 a) read_0 a
      → Wire (write_1 b) read_1 b
      → Wire (write_pair write_0 write_1 (a, b)) (read_pair read_0 read_1) (a, b)
  unfolding write_pair read_pair
  Wire-pair {a = a} p q = Wire-bind _ p (Wire-map (λ y. (a, y)) q)
