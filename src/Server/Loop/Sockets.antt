-- ===== src/Server/Loop/Sockets.antt =====
-- The listening sockets of dust-devil/src/server.rs, as managers add and remove them.
use dust_devil.Base.{
  ℕ, suc, ◌+◌, ◌<◌, ◌≡◌, Bool, true, false, Option, none, some, List, [], ◌∷◌, if◌then◌else◌,
}
use dust_devil.Serialize.Addresses.{SocketAddr}
use dust_devil.Protocol.Results.{RemoveSocketResponse}
use dust_devil.Serialize.Addresses.{addr_eq}
use dust_devil.Server.Loop.{Listener, listens_at, swap_remove, Reply, socket_removed}

-- How many listeners an address has.
unfoldable pub listeners_at : SocketAddr → List Listener → ℕ
listeners_at a [] = 0
listeners_at a (l ∷ ls) = (if listens_at a l then 1 else 0) + listeners_at a ls

-- What an index says of the listeners: one that listens at the address is there, or none does.
Found : SocketAddr → List Listener → Option ℕ → Type 0
Found a ls none = listeners_at a ls ≡ 0
Found a ls (some i) =
    (0 < listeners_at a ls)
    × ((b : SocketAddr)
        → listeners_at b (swap_remove i ls) + (if addr_eq a b then 1 else 0) ≡ listeners_at b ls)

next : Option ℕ → Option ℕ
next o = elim o [ none ↦ none | some i ↦ some (suc i) ]

abbrev pub was_removed : Reply → Bool
was_removed (socket_removed RemoveSocketResponse.ok) = true
was_removed _ = false
