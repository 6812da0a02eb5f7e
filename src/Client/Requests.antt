-- ===== src/Client/Requests.antt =====
-- sandstorm/src/handle_requests.rs: the requests of the command line, made one after the other.
use dust_devil.Base.{
  ℕ, suc, ◌≡◌, sym, ◌∙◌, Bool, true, not, List, [], ◌∷◌, ◌++◌, append-nil, append_assoc, map, ◌==◌,
  if◌then◌else◌,
}
use dust_devil.Io.{Text}
use dust_devil.Protocol.Requests.{Request}
use dust_devil.Client.{ResponseHandlers, request_fn}
use dust_devil.Client.Args.{CommandRequest}

unfoldable pub request_of_command : CommandRequest → Request
request_of_command CommandRequest.shutdown = Request.shutdown
request_of_command CommandRequest.list_socks5_sockets = Request.list_socks5_sockets
request_of_command (CommandRequest.add_socks5_socket a) = Request.add_socks5_socket a
request_of_command (CommandRequest.remove_socks5_socket a) = Request.remove_socks5_socket a
request_of_command CommandRequest.list_sandstorm_sockets = Request.list_sandstorm_sockets
request_of_command (CommandRequest.add_sandstorm_socket a) = Request.add_sandstorm_socket a
request_of_command (CommandRequest.remove_sandstorm_socket a) = Request.remove_sandstorm_socket a
request_of_command CommandRequest.list_users = Request.list_users
request_of_command (CommandRequest.add_user u p r) = Request.add_user u p r
request_of_command (CommandRequest.update_user u p r) = Request.update_user u p r
request_of_command (CommandRequest.delete_user u) = Request.delete_user u
request_of_command CommandRequest.list_auth_methods = Request.list_auth_methods
request_of_command (CommandRequest.toggle_auth_method m b) = Request.toggle_auth_method m b
request_of_command CommandRequest.get_metrics = Request.request_current_metrics
request_of_command CommandRequest.get_buffer_size = Request.get_buffer_size
request_of_command (CommandRequest.set_buffer_size n) = Request.set_buffer_size n
request_of_command CommandRequest.meow = Request.meow

-- Whether the function of a request prints its response.
unfoldable pub prints : (silent : Bool) → CommandRequest → Bool
prints silent (CommandRequest.delete_user u) = true
prints silent _ = not silent

-- `UserDisplayer`
unfoldable pub display_user : Text → Text
display_user [] = []
display_user (c ∷ s) =
    let rest = display_user s in if c == b':' then b'\\' ∷ b':' ∷ rest else c ∷ rest

-- The functions are numbered from `f` on.
unfoldable pub handle_requests : List CommandRequest → (f : ℕ) → ResponseHandlers → ResponseHandlers
unfolding request_of_command
handle_requests [] f h = h
handle_requests (q ∷ qs) f h = handle_requests qs (suc f) (request_fn (request_of_command q) f h)

-- The requests are written in the order of the command line.
pub handle_requests_order :
    (qs : List CommandRequest) (f : ℕ) (h : ResponseHandlers)
    → (handle_requests qs f h).requests ≡ h.requests ++ map request_of_command qs
unfolding handle_requests request_fn
handle_requests_order [] f h = sym (append-nil h.requests)
handle_requests_order (q ∷ qs) f h =
    handle_requests_order qs (suc f) (request_fn (request_of_command q) f h)
    ∙ append_assoc h.requests (request_of_command q ∷ []) (map request_of_command qs)
