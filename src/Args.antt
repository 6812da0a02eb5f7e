-- ===== src/Args.antt =====
-- What dust-devil/src/args.rs and sandstorm/src/args.rs have in common: the tests of an argument, the
-- parsing of socket addresses and the number of a port, word for word in both.
pub mod Distinct
use dust_devil.Base.{
  ℕ, zero, suc, ◌+◌, ◌/◌, ◌%◌, Bool, true, false, ◌||◌, Option, none, some, List, [], ◌∷◌, ◌++◌,
  map, str_eq, ltb, if◌then◌else◌,
}
use dust_devil.Io.{Text, Error, ErrorKind}
use dust_devil.Serialize.Addresses.{SocketAddr, addr_eq}
use dust_devil.Serialize.Containers.{Result}
use dust_devil.Protocol.BufferSize.{to_ascii_lowercase}

-- `eq_ignore_ascii_case`
unfoldable pub eq_ignore_ascii_case : Text → Text → Bool
unfolding to_ascii_lowercase
eq_ignore_ascii_case s t = str_eq (map to_ascii_lowercase s) (map to_ascii_lowercase t)

-- The tests of an `else if`: the short name exactly, or the long one in any case.
unfoldable pub is_named : (short long arg : Text) → Bool
unfolding eq_ignore_ascii_case
is_named short long arg = str_eq arg short || eq_ignore_ascii_case arg long

-- The first branch whose test holds.
module _ {F : Type 0} where
  unfoldable pub flag_of : List (Text × Text × F) → Text → Option F
  unfolding is_named
  flag_of [] arg = none
  flag_of ((short, long, f) ∷ flags) arg =
      if is_named short long arg then some f else flag_of flags arg

-- `format!("{n}")`, with fuel for as many digits as a `u16` has.
unfoldable pub show_digits : (fuel n : ℕ) → Text
show_digits zero n = []
show_digits (suc fuel) n =
    let rest = show_digits fuel (n / 10) in
    if ltb n 10 then (48 + n) ∷ [] else rest ++ (48 + n % 10) ∷ []

abbrev pub show_u16 : ℕ → Text
show_u16 = show_digits 5

pub data SocketErrorType : Type 0 where
  unexpected_end : Text → SocketErrorType
  invalid_socket_address : Text → Text → SocketErrorType

-- `result_vec.contains`
unfoldable pub contains : List SocketAddr → SocketAddr → Bool
unfolding addr_eq
contains [] a = false
contains (b ∷ bs) a = addr_eq b a || contains bs a

-- The loop that adds the addresses that are not there yet.
unfoldable pub push_new : List SocketAddr → List SocketAddr → List SocketAddr
unfolding contains
push_new result_vec [] = result_vec
push_new result_vec (a ∷ more) =
    push_new (if contains result_vec a then result_vec else result_vec ++ a ∷ []) more

abbrev is_invalid_input : ErrorKind → Bool
is_invalid_input ErrorKind.invalid_input = true
is_invalid_input _ = false

-- `resolve` stands for `to_socket_addrs`, which asks the system.
module _ (resolve : Text → Result (List SocketAddr) Error) where
  abbrev pub add_resolved :
      List SocketAddr
      → (arg arg2 : Text) → Result (List SocketAddr) Error
      → Result (List SocketAddr) SocketErrorType
  add_resolved result_vec arg arg2 (Result.ok found) = Result.ok (push_new result_vec found)
  add_resolved result_vec arg arg2 (Result.err e) =
      Result.err (SocketErrorType.invalid_socket_address arg arg2)

  -- Where the text alone is no address with a port, the default port is put behind it.
  abbrev pub or_with_port :
      Text → (default_port : ℕ) → Result (List SocketAddr) Error → Result (List SocketAddr) Error
  or_with_port arg2 default_port (Result.ok found) = Result.ok found
  or_with_port arg2 default_port (Result.err e) =
      if is_invalid_input e.kind
      then resolve (arg2 ++ b':' ∷ show_u16 default_port)
      else Result.err e

  unfoldable pub parse_socket_arg :
      List SocketAddr
      → (arg : Text) → Option Text
      → (default_port : ℕ) → Result (List SocketAddr) SocketErrorType
  unfolding push_new show_digits
  parse_socket_arg result_vec arg none default_port =
      Result.err (SocketErrorType.unexpected_end arg)
  parse_socket_arg result_vec arg (some arg2) default_port =
      add_resolved result_vec arg arg2 (or_with_port arg2 default_port (resolve arg2))
