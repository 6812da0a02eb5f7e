-- ===== src/Args/Distinct.antt =====
-- The addresses that the parsers of dust-devil/src/args.rs and sandstorm/src/args.rs gather are distinct.
use dust_devil.Base.{
  ℕ, ◌≡◌, refl, false, ◌||◌, Option, none, some, List, [], ◌∷◌, ◌++◌, arith, Bool-cases, inl, inr,
}
use dust_devil.Io.{Text, Error}
use dust_devil.Serialize.Addresses.{SocketAddr, addr_eq, addr_eq_iff}
use dust_devil.Serialize.Containers.{Result}
use dust_devil.Args.{
  contains, push_new, add_resolved, or_with_port, parse_socket_arg, SocketErrorType,
}

abbrev pub IsDistinct : List SocketAddr → Type 0
IsDistinct [] = Unit
IsDistinct (a ∷ bs) = (contains bs a ≡ false) × IsDistinct bs

addr_eq_comm : (a b : SocketAddr) → addr_eq a b ≡ addr_eq b a
addr_eq_comm a b = ground (arith, addr_eq_iff a b, addr_eq_iff b a)

contains-append :
    (bs : List SocketAddr) (a b : SocketAddr)
    → contains (bs ++ a ∷ []) b ≡ (contains bs b || addr_eq a b)
unfolding contains
contains-append [] a b = ground arith
contains-append (c ∷ bs) a b = ground (arith, contains-append bs a b)

append-IsDistinct :
    (bs : List SocketAddr) (a : SocketAddr)
    → IsDistinct bs
    → contains bs a ≡ false
    → IsDistinct (bs ++ a ∷ [])
unfolding contains
append-IsDistinct [] a d h = (refl, tt)
append-IsDistinct (b ∷ bs) a d h =
    ground (arith, contains-append bs a b, addr_eq_comm a b, append-IsDistinct bs a d.1, d.0)

pub push_new-IsDistinct :
    (bs more : List SocketAddr) → IsDistinct bs → IsDistinct (push_new bs more)
unfolding push_new
push_new-IsDistinct bs [] d = d
push_new-IsDistinct bs (a ∷ more) d = elim (Bool-cases (contains bs a)) [
  | inl there ↦ rw there (push_new-IsDistinct bs more d)
  | inr fresh ↦ rw fresh (push_new-IsDistinct (bs ++ a ∷ []) more (append-IsDistinct bs a d fresh))
]

abbrev pub AreDistinct : Result (List SocketAddr) SocketErrorType → Type 0
AreDistinct (Result.ok bs) = IsDistinct bs
AreDistinct (Result.err e) = Unit

module _ (resolve : Text → Result (List SocketAddr) Error) where
  add_resolved-AreDistinct :
      (bs : List SocketAddr) (arg arg2 : Text) (o : Result (List SocketAddr) Error)
      → IsDistinct bs
      → AreDistinct (add_resolved resolve bs arg arg2 o)
  add_resolved-AreDistinct bs arg arg2 (Result.ok found) d = push_new-IsDistinct bs found d
  add_resolved-AreDistinct bs arg arg2 (Result.err e) d = tt

  pub parse_socket_arg-AreDistinct :
      (bs : List SocketAddr) (arg : Text) (next : Option Text) (port : ℕ)
      → IsDistinct bs
      → AreDistinct (parse_socket_arg resolve bs arg next port)
  unfolding parse_socket_arg
  parse_socket_arg-AreDistinct bs arg none port d = tt
  parse_socket_arg-AreDistinct bs arg (some arg2) port d =
      add_resolved-AreDistinct bs arg arg2 (or_with_port resolve arg2 port (resolve arg2)) d
