-- ===== src/Server/Loop.antt =====
-- dust-devil/src/server.rs (`run_server_inner`) and utils/accept_from_any.rs: the listening sockets, the
-- main loop and the end of the server. What the operating system answers (connections, and what comes
-- of a `bind`) comes with each step.
pub mod Sockets
pub mod Numbers
pub mod Replies
use dust_devil.Base.{
  ℕ, zero, suc, ◌+◌, ◌%◌, ◌^◌, Bool, true, false, ◌&&◌, Option, none, some, List, [], ◌∷◌, ◌++◌,
  ◌==◌, str_eq, if◌then◌else◌,
}
use dust_devil.Io.{Text, text, Error, ErrorKind, error_new}
use dust_devil.Serialize.Addresses.{addr_eq, SocketAddr, v4, v6}
use dust_devil.Serialize.Containers.{Result, ok, err}
use dust_devil.Protocol.Events.{
  EventData, new_client_connection_accepted, client_connection_accept_failed,
  new_sandstorm_connection_accepted, new_socks5_socket, failed_bind_socks5_socket,
  removed_socks5_socket, new_sandstorm_socket, failed_bind_sandstorm_socket,
  removed_sandstorm_socket, failed_bind_any_socket_aborting, shutdown_signal_received,
  saving_users_to_file, users_saved_to_file,
}
use dust_devil.Protocol.Results.{RemoveSocketResponse}
use dust_devil.Server.Sandstorm.{MessageType}

-- `SocketAddr`'s equality and `port()`.
abbrev pub port : SocketAddr → ℕ
port (v4 a) = a.port
port (v6 a) = a.port

-- A `TcpListener`, by its `local_addr().ok()`.
abbrev pub Listener : Type 0
Listener = Option SocketAddr

-- `poll_accept` of each listener, `none` where it is pending: the first that is ready.
unfoldable pub accept_from_any :
    {A : Type 0} → List (Option (Result A Error) × Listener) → Option (Result A (Listener × Error))
accept_from_any [] = none
accept_from_any ((none, l) ∷ ls) = accept_from_any ls
accept_from_any ((some (ok a), l) ∷ ls) = some (ok a)
accept_from_any ((some (err e), l) ∷ ls) = some (err (l, e))

unfoldable pub listens_at : SocketAddr → Listener → Bool
unfolding addr_eq
listens_at a none = false
listens_at a (some b) = addr_eq b a

-- The index of the first listener at an address.
unfoldable pub find_index : SocketAddr → List Listener → Option ℕ
unfolding listens_at
find_index a [] = none
find_index a (l ∷ ls) =
    let rest : Option ℕ = elim (find_index a ls) [ none ↦ none | some i ↦ some (suc i) ] in
    if listens_at a l then some 0 else rest

module _ {A : Type 0} where
  abbrev pub last_or : A → List A → A
  last_or x [] = x
  last_or x (y ∷ ys) = last_or y ys

  abbrev pub all_but_last : A → List A → List A
  all_but_last x [] = []
  all_but_last x (y ∷ ys) = x ∷ all_but_last y ys

  -- `Vec::swap_remove`: the last element takes the place.
  unfoldable pub swap_remove : ℕ → List A → List A
  swap_remove i [] = []
  swap_remove zero (x ∷ []) = []
  swap_remove zero (x ∷ y ∷ ys) = last_or y ys ∷ all_but_last y ys
  swap_remove (suc i) (x ∷ xs) = x ∷ swap_remove i xs

-- What is sent back for a message.
pub data Reply : Type 0 where
  shutting_down : Reply
  sockets : List SocketAddr → Reply
  socket_added : Result (Unit {0}) Error → Reply
  socket_removed : RemoveSocketResponse → Reply

-- The tasks that are started for connections.
pub data Task : Type 0 where
  client manager : (id : ℕ) → Task

pub record Server : Type 0 where
  pub socks_listeners : List Listener
  pub sandstorm_listeners : List Listener
  pub client_id_counter : ℕ
  pub manager_id_counter : ℕ
  pub has_logger : Bool
  pub events : List EventData
  pub tasks : List Task
  pub replies : List Reply

-- `sendif!`
abbrev pub sendif : EventData → Server → Server
sendif e s = record s { events = if s.has_logger then s.events ++ e ∷ [] else s.events }

abbrev pub reply : Reply → Server → Server
reply r s = record s { replies = s.replies ++ r ∷ [] }

-- `filter_map(|l| l.local_addr().ok())`
unfoldable pub addresses : List Listener → List SocketAddr
addresses [] = []
addresses (none ∷ ls) = addresses ls
addresses (some a ∷ ls) = a ∷ addresses ls

abbrev pub zero_port : Error
zero_port = error_new ErrorKind.invalid_data (text "The port may not be zero")

-- Adding and removing a socket of one kind: the listeners, the event and the reply.
unfoldable pub add_listener :
    (added : SocketAddr → EventData) (failed : SocketAddr → Error → EventData)
    → SocketAddr
    → Result Listener Error
    → List Listener
    → List Listener × List EventData × Reply
add_listener added failed a bound ls =
    if port a == 0 then (ls, [], socket_added (err zero_port)) else elim bound [
      | ok l ↦ (ls ++ l ∷ [], added a ∷ [], socket_added (ok tt))
      | err e ↦ (ls, failed a e ∷ [], socket_added (err (error_new e.kind e.message)))
    ]

unfoldable pub remove_listener :
    (removed : SocketAddr → EventData)
    → SocketAddr
    → List Listener
    → List Listener × List EventData × Reply
unfolding find_index swap_remove
remove_listener removed a ls = elim (find_index a ls) [
  | none ↦ (ls, [], socket_removed RemoveSocketResponse.socket_not_found)
  | some i ↦ (swap_remove i ls, removed a ∷ [], socket_removed RemoveSocketResponse.ok)
]

abbrev pub with_socks : List Listener × List EventData × Reply → Server → Server
with_socks r s = record s {
  socks_listeners = r.0;
  events = if s.has_logger then s.events ++ r.1 else s.events;
  replies = s.replies ++ r.2 ∷ [];
}

abbrev pub with_sandstorm : List Listener × List EventData × Reply → Server → Server
with_sandstorm r s = record s {
  sandstorm_listeners = r.0;
  events = if s.has_logger then s.events ++ r.1 else s.events;
  replies = s.replies ++ r.2 ∷ [];
}

-- A message, `bound` what `TcpListener::bind` gives where it is called; whether the loop goes on.
unfoldable pub handle_message :
    MessageType → (bound : Result Listener Error) → Server → Server × Bool
unfolding add_listener remove_listener addresses
handle_message MessageType.shutdown_request bound s = (reply shutting_down s, false)
handle_message MessageType.list_socks5_sockets bound s =
    (reply (sockets (addresses s.socks_listeners)) s, true)
handle_message (MessageType.add_socks5_socket a) bound s = (
  with_socks (add_listener new_socks5_socket failed_bind_socks5_socket a bound s.socks_listeners) s,
  true,
)
handle_message (MessageType.remove_socks5_socket a) bound s =
    (with_socks (remove_listener removed_socks5_socket a s.socks_listeners) s, true)
handle_message MessageType.list_sandstorm_sockets bound s =
    (reply (sockets (addresses s.sandstorm_listeners)) s, true)
handle_message (MessageType.add_sandstorm_socket a) bound s = (
  with_sandstorm
      (add_listener new_sandstorm_socket failed_bind_sandstorm_socket a bound s.sandstorm_listeners)
      s,
  true,
)
handle_message (MessageType.remove_sandstorm_socket a) bound s =
    (with_sandstorm (remove_listener removed_sandstorm_socket a s.sandstorm_listeners) s, true)

-- What the `select!` of the loop wakes up for.
pub data Wake : Type 0 where
  socks_accepted sandstorm_accepted : Result SocketAddr (Listener × Error) → Wake
  message : MessageType → (bound : Result Listener Error) → Wake
  ctrl_c : Wake

unfoldable pub turn : Wake → Server → Server × Bool
unfolding handle_message
turn (socks_accepted (ok a)) s = (
  record (sendif (new_client_connection_accepted s.client_id_counter a) s) {
    client_id_counter = (s.client_id_counter + 1) % 2 ^ 64;
    tasks = s.tasks ++ client s.client_id_counter ∷ [];
  },
  true,
)
turn (socks_accepted (err (l, e))) s = (sendif (client_connection_accept_failed l e) s, true)
turn (sandstorm_accepted (ok a)) s = (
  record (sendif (new_sandstorm_connection_accepted s.manager_id_counter a) s) {
    manager_id_counter = (s.manager_id_counter + 1) % 2 ^ 64;
    tasks = s.tasks ++ manager s.manager_id_counter ∷ [];
  },
  true,
)
turn (sandstorm_accepted (err (l, e))) s = (sendif (client_connection_accept_failed l e) s, true)
turn (message m bound) s = handle_message m bound s
turn ctrl_c s = (sendif shutdown_signal_received s, false)

-- The main loop, up to the step that ends it; whether it has ended.
unfoldable pub main_loop : List Wake → Server → Server × Bool
unfolding turn
main_loop [] s = (s, false)
main_loop (w ∷ ws) s =
    let t = turn w s in elim t.1 [ true ↦ main_loop ws t.0 | false ↦ (t.0, true) ]

-- `bind_socks_sockets` and `bind_sandstorm_sockets`: each address with what its `bind` gives.
unfoldable pub bind_sockets :
    (bound : SocketAddr → EventData) (failed : SocketAddr → Error → EventData)
    → List (SocketAddr × Result Listener Error)
    → List Listener × List EventData
bind_sockets bound failed [] = ([], [])
bind_sockets bound failed ((a, ok l) ∷ more) =
    let r = bind_sockets bound failed more in (l ∷ r.0, bound a ∷ r.1)
bind_sockets bound failed ((a, err e) ∷ more) =
    let r = bind_sockets bound failed more in (r.0, failed a e ∷ r.1)

-- After the loop: the users are saved.
unfoldable pub save_at_end : (users_file : Text) (saved : Result ℕ Error) → Server → Server
save_at_end users_file saved s = sendif (users_saved_to_file users_file saved) (
    sendif (saving_users_to_file users_file)
      (record s { socks_listeners = []; sandstorm_listeners = [] }))

-- `run_server_inner` behind the loading of users: `none` in place of the ended loop where it still runs.
unfoldable pub run_server_inner :
    (has_logger : Bool) (socks sandstorm : List (SocketAddr × Result Listener Error))
    (users_file : Text) (saved : Result ℕ Error)
    → List Wake
    → List EventData × Option Server
unfolding bind_sockets main_loop save_at_end
run_server_inner has_logger socks sandstorm users_file saved wakes =
    let a = bind_sockets new_socks5_socket failed_bind_socks5_socket socks in
    let b = bind_sockets new_sandstorm_socket failed_bind_sandstorm_socket sandstorm in
    let start : Server = record {
      socks_listeners = a.0;
      sandstorm_listeners = b.0;
      client_id_counter = 1;
      manager_id_counter = 1;
      has_logger = has_logger;
      events = if has_logger then a.1 ++ b.1 else [];
      tasks = [];
      replies = [];
    } in
    elim a.0 [
      | [] ↦ (if has_logger then a.1 ++ failed_bind_any_socket_aborting ∷ [] else [], none)
      | l ∷ ls ↦
          let r = main_loop wakes start in
          if r.1
          then ((save_at_end users_file saved r.0).events, some (save_at_end users_file saved r.0))
          else (r.0.events, none)
    ]
