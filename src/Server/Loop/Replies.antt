-- ===== src/Server/Loop/Replies.antt =====
-- The replies of the main loop of dust-devil/src/server.rs.
use dust_devil.Base.{
  ℕ, ◌≡◌, refl, sym, ap, ◌∙◌, Option, none, some, List, [], ◌∷◌, ◌++◌, append_assoc, append-nil,
  map, ◌==◌, Bool-cases, inl, inr,
}
use dust_devil.Io.{Error}
use dust_devil.Serialize.Addresses.{SocketAddr}
use dust_devil.Serialize.Containers.{Result, ok, err}
use dust_devil.Protocol.Events.{
  EventData, new_socks5_socket, failed_bind_socks5_socket, removed_socks5_socket,
  new_sandstorm_socket, failed_bind_sandstorm_socket, removed_sandstorm_socket,
}
use dust_devil.Protocol.Results.{RemoveSocketResponse}
use dust_devil.Server.Sandstorm.{MessageType}
use dust_devil.Server.Loop.{
  Listener, Server, Reply, shutting_down, sockets, socket_added, socket_removed, port, find_index,
  swap_remove, add_listener, remove_listener, handle_message, Wake, socks_accepted,
  sandstorm_accepted, message, ctrl_c, turn, main_loop,
}

-- What a message asks for, and what a reply answers.
pub data ReplyKind : Type 0 where
  shuts_down lists adds removes : ReplyKind

abbrev pub kind_of_message : MessageType → ReplyKind
kind_of_message MessageType.shutdown_request = shuts_down
kind_of_message MessageType.list_socks5_sockets = lists
kind_of_message (MessageType.add_socks5_socket a) = adds
kind_of_message (MessageType.remove_socks5_socket a) = removes
kind_of_message MessageType.list_sandstorm_sockets = lists
kind_of_message (MessageType.add_sandstorm_socket a) = adds
kind_of_message (MessageType.remove_sandstorm_socket a) = removes

abbrev pub kind_of_reply : Reply → ReplyKind
kind_of_reply shutting_down = shuts_down
kind_of_reply (sockets l) = lists
kind_of_reply (socket_added r) = adds
kind_of_reply (socket_removed r) = removes

-- The messages up to the end of the loop.
unfoldable pub handled : List Wake → List MessageType
handled [] = []
handled (socks_accepted r ∷ ws) = handled ws
handled (sandstorm_accepted r ∷ ws) = handled ws
handled (ctrl_c ∷ ws) = []
handled (message MessageType.shutdown_request b ∷ ws) = MessageType.shutdown_request ∷ []
handled (message m b ∷ ws) = m ∷ handled ws

add_listener_kind :
    (f : SocketAddr → EventData) (g : SocketAddr → Error → EventData) (a : SocketAddr)
    (b : Result Listener Error) (ls : List Listener)
    → kind_of_reply (add_listener f g a b ls).2 ≡ adds
unfolding add_listener
add_listener_kind f g a (ok l) ls = elim (Bool-cases (port a == 0)) [
  | inl e ↦ simp e
  | inr e ↦ simp e
]
add_listener_kind f g a (err x) ls = elim (Bool-cases (port a == 0)) [
  | inl e ↦ simp e
  | inr e ↦ simp e
]

remove_listener_kind :
    (f : SocketAddr → EventData) (a : SocketAddr) (ls : List Listener)
    → kind_of_reply (remove_listener f a ls).2 ≡ removes
unfolding remove_listener
remove_listener_kind f a ls = by_index (find_index a ls)
  where
    by_index :
        (o : Option ℕ)
        → let r : List Listener × List EventData × Reply = elim o [
          | none ↦ (ls, [], socket_removed RemoveSocketResponse.socket_not_found)
          | some i ↦ (swap_remove i ls, f a ∷ [], socket_removed RemoveSocketResponse.ok)
        ] in
          kind_of_reply r.2 ≡ removes
    by_index none = refl
    by_index (some i) = refl

Replied : List Reply → ReplyKind → Server → Type 0
Replied rs k t = map kind_of_reply t.replies ≡ map kind_of_reply rs ++ k ∷ []

replied :
    (rs : List Reply) (r : Reply) (k : ReplyKind)
    → kind_of_reply r ≡ k
    → map kind_of_reply (rs ++ r ∷ []) ≡ map kind_of_reply rs ++ k ∷ []
replied [] r k e = ap (λ x. x ∷ []) e
replied (q ∷ rs) r k e = ap (λ t. kind_of_reply q ∷ t) (replied rs r k e)

handle_message-Replied :
    (m : MessageType) (b : Result Listener Error) (s : Server)
    → Replied s.replies (kind_of_message m) (handle_message m b s).0
unfolding handle_message Replied
handle_message-Replied MessageType.shutdown_request b s = replied s.replies _ _ refl
handle_message-Replied MessageType.list_socks5_sockets b s = replied s.replies _ _ refl
handle_message-Replied (MessageType.add_socks5_socket a) b s =
    replied s.replies _ _
      (add_listener_kind new_socks5_socket failed_bind_socks5_socket a b s.socks_listeners)
handle_message-Replied (MessageType.remove_socks5_socket a) b s =
    replied s.replies _ _ (remove_listener_kind removed_socks5_socket a s.socks_listeners)
handle_message-Replied MessageType.list_sandstorm_sockets b s = replied s.replies _ _ refl
handle_message-Replied (MessageType.add_sandstorm_socket a) b s =
    replied s.replies _ _ (
      add_listener_kind new_sandstorm_socket failed_bind_sandstorm_socket a b s.sandstorm_listeners)
handle_message-Replied (MessageType.remove_sandstorm_socket a) b s =
    replied s.replies _ _ (remove_listener_kind removed_sandstorm_socket a s.sandstorm_listeners)

going_on :
    (m : MessageType) (ws : List Wake) (s t : Server)
    → Replied s.replies (kind_of_message m) t
    → map kind_of_reply (main_loop ws t).0.replies
      ≡ map kind_of_reply t.replies ++ map kind_of_message (handled ws)
    → map kind_of_reply (main_loop ws t).0.replies
      ≡ map kind_of_reply s.replies ++ map kind_of_message (m ∷ handled ws)
unfolding Replied
going_on m ws s t h ih =
    ih
    ∙ ap (λ x. x ++ map kind_of_message (handled ws)) h
    ∙ append_assoc (map kind_of_reply s.replies) (kind_of_message m ∷ [])
        (map kind_of_message (handled ws))

-- Every message that reaches the main loop up to its end is replied to, once and in order, with a
-- reply of the kind that the message asks for.
pub main_loop_replies :
    (ws : List Wake) (s : Server)
    → map kind_of_reply (main_loop ws s).0.replies
      ≡ map kind_of_reply s.replies ++ map kind_of_message (handled ws)
unfolding main_loop turn handled
main_loop_replies [] s = sym (append-nil (map kind_of_reply s.replies))
main_loop_replies (socks_accepted (ok a) ∷ ws) s =
    main_loop_replies ws (turn (socks_accepted (ok a)) s).0
main_loop_replies (socks_accepted (err (l, e)) ∷ ws) s =
    main_loop_replies ws (turn (socks_accepted (err (l, e))) s).0
main_loop_replies (sandstorm_accepted (ok a) ∷ ws) s =
    main_loop_replies ws (turn (sandstorm_accepted (ok a)) s).0
main_loop_replies (sandstorm_accepted (err (l, e)) ∷ ws) s =
    main_loop_replies ws (turn (sandstorm_accepted (err (l, e))) s).0
main_loop_replies (ctrl_c ∷ ws) s = sym (append-nil (map kind_of_reply s.replies))
main_loop_replies (message MessageType.shutdown_request b ∷ ws) s =
    unfold Replied in handle_message-Replied MessageType.shutdown_request b s
main_loop_replies (message MessageType.list_socks5_sockets b ∷ ws) s =
    let m : MessageType = MessageType.list_socks5_sockets in
    let t = (handle_message m b s).0 in
    going_on m ws s t (handle_message-Replied m b s) (main_loop_replies ws t)
main_loop_replies (message (MessageType.add_socks5_socket a) b ∷ ws) s =
    let m : MessageType = MessageType.add_socks5_socket a in
    let t = (handle_message m b s).0 in
    going_on m ws s t (handle_message-Replied m b s) (main_loop_replies ws t)
main_loop_replies (message (MessageType.remove_socks5_socket a) b ∷ ws) s =
    let m : MessageType = MessageType.remove_socks5_socket a in
    let t = (handle_message m b s).0 in
    going_on m ws s t (handle_message-Replied m b s) (main_loop_replies ws t)
main_loop_replies (message MessageType.list_sandstorm_sockets b ∷ ws) s =
    let m : MessageType = MessageType.list_sandstorm_sockets in
    let t = (handle_message m b s).0 in
    going_on m ws s t (handle_message-Replied m b s) (main_loop_replies ws t)
main_loop_replies (message (MessageType.add_sandstorm_socket a) b ∷ ws) s =
    let m : MessageType = MessageType.add_sandstorm_socket a in
    let t = (handle_message m b s).0 in
    going_on m ws s t (handle_message-Replied m b s) (main_loop_replies ws t)
main_loop_replies (message (MessageType.remove_sandstorm_socket a) b ∷ ws) s =
    let m : MessageType = MessageType.remove_sandstorm_socket a in
    let t = (handle_message m b s).0 in
    going_on m ws s t (handle_message-Replied m b s) (main_loop_replies ws t)
