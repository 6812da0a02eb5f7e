-- ===== src/Server/Socks/Flow.antt =====
-- A client that speaks socks5 as RFC 1928 and RFC 1929 have it, and what `handle_socks5_inner` of
-- dust-devil/src/socks5/mod.rs makes of it.
use dust_devil.Base.{
  ℕ, ◌^◌, ◌<◌, ◌≤◌, ◌≡◌, refl, ap, ◌∙◌, Bool, true, false, Option, none, some, List, [], ◌∷◌, ◌++◌,
  length, if◌then◌else◌,
}
use dust_devil.Io.{Bytes, Text, text, Error, ok}
use dust_devil.Serialize.Addresses.{SocketAddr}
use dust_devil.Serialize.Containers.{Result}
use dust_devil.Serialize.Texts.Laws.{IsText}
use dust_devil.Protocol.Socks.{
  AuthMethod, no_auth, username_and_password, SocksRequest, SocksRequestAddress, ipv4, ipv6,
  domainname,
}
use dust_devil.Protocol.Events.{EventData, client_authenticated_with_userpass}
use dust_devil.Server.Context.{ServerState}
use dust_devil.Server.Socks.{
  Attempt, SocksStatus, success, host_unreachable, select_auth_method, handshake_response,
  connect_socket,
}
use dust_devil.Server.Socks.Auth.{
  auth_end, client_login, client_login_lem, handle_userpass_auth_reads,
}
use dust_devil.Server.Socks.Parse.{parse_request, request_bytes, IsRequestable}
use dust_devil.Server.Socks.Laws.{
  connect_socket_lem, parse_handshake_lem, parse_request-request_bytes,
}
use dust_devil.Server.Users.Lookup.{find, has_password}
use dust_devil.Server.Socks.Served.{
  chosen, method_reply, at_port, spoken, Outline, found, connected_to, reached, served,
}
use dust_devil.Server.Socks.Session.{
  Progress, Ending, say, note, selected, after_connect, connect_to, with_ports, destinations,
  noted_lookup, after_request, after_auth, authenticate, after_handshake, handle_socks5_inner,
}
use dust_devil.Server.Socks.Agree.{
  select_auth_method-chosen, handshake_response-method_reply, request_response-reply, coded,
  first_connected-destined, at_port-map,
}

abbrev pub outline : Option Ending → Option Outline
outline none = none
outline (some (o, p)) = some (o, p.answers)

module _ (id : ℕ) (try : SocketAddr → Attempt) (lookup : Text → Result (List SocketAddr) Error)
    (local_addr : SocketAddr → Option SocketAddr) where
  destinations-found :
      (a : SocksRequestAddress) (port : ℕ)
      → destinations id try lookup local_addr a port ≡ found try lookup local_addr a port
  unfolding destinations
  destinations-found (ipv4 o) port = refl
  destinations-found (ipv6 o) port = refl
  destinations-found (domainname d) port = by_lookup (lookup (d ++ text ":0"))
    where
      by_lookup :
          (o : Result (List SocketAddr) Error)
          → with_ports id try lookup local_addr port o
            ≡ (elim o as (λ x. Result (List SocketAddr) Error) [
              | Result.ok l ↦ Result.ok (at_port port l)
              | Result.err e ↦ Result.err e
            ])
      by_lookup (Result.ok l) = ap (λ t. Result.ok t) (at_port-map port l)
      by_lookup (Result.err e) = refl

  after_connect_lem :
      (rest answers : Bytes) (x : Result SocketAddr SocksStatus × List EventData)
      → outline (some (after_connect id try lookup local_addr rest answers x))
        ≡ some (connected_to try lookup local_addr rest answers (coded x.0))
  unfolding after_connect
  after_connect_lem rest answers (Result.ok a, events) =
      ap (λ t. some (ok (some (a, rest)), answers ++ t))
        (request_response-reply success (local_addr a))
  after_connect_lem rest answers (Result.err status, events) =
      ap (λ t. some (ok none, answers ++ t)) (request_response-reply status none)

  connect_to_lem :
      (rest : Bytes) (p : Progress) (l : Result (List SocketAddr) Error)
      → outline (some (connect_to id try lookup local_addr rest p l))
        ≡ some (reached try lookup local_addr rest p.answers l)
  unfolding connect_to
  connect_to_lem rest p (Result.ok l) =
      after_connect_lem rest p.answers (connect_socket try id p.events l)
      ∙ ap (λ o. some (connected_to try lookup local_addr rest p.answers o))
          (ap coded (connect_socket_lem try id p.events l)
            ∙ first_connected-destined try host_unreachable l)
  connect_to_lem rest p (Result.err e) = refl

  noted_answers :
      (a : SocksRequestAddress) (p : Progress)
      → (noted_lookup id try lookup local_addr a p).answers ≡ p.answers
  noted_answers (ipv4 o) p = refl
  noted_answers (ipv6 o) p = refl
  noted_answers (domainname d) p = refl

  module _ (sizes : ℕ → ℕ) (fuel : ℕ) (s : ServerState) (username password : Text)
      (r : SocksRequest) (rest : Bytes) where
    requested :
        (p : Progress)
        → 255 ≤ fuel
        → IsRequestable r.destination
        → r.port < 256 ^ 2
        → outline (
            after_request id try lookup local_addr p
              (parse_request sizes fuel (request_bytes r ++ rest)))
          ≡ some (
              reached try lookup local_addr rest p.answers
                (found try lookup local_addr r.destination r.port))
    unfolding after_request
    requested p f v h =
        ap (λ x. outline (after_request id try lookup local_addr p x))
          (parse_request-request_bytes sizes fuel r rest f v h)
        ∙ connect_to_lem rest (noted_lookup id try lookup local_addr r.destination p)
            (destinations id try lookup local_addr r.destination r.port)
        ∙ ap
            (λ a. some (
              reached try lookup local_addr rest a
                (destinations id try lookup local_addr r.destination r.port)))
            (noted_answers r.destination p)
        ∙ ap (λ d. some (reached try lookup local_addr rest p.answers d))
            (destinations-found r.destination r.port)

    logged_in :
        (p : Progress) (login : Bool)
        → 255 ≤ fuel
        → IsRequestable r.destination
        → r.port < 256 ^ 2
        → outline (
            after_auth id try lookup local_addr sizes fuel p (
              ok (
                auth_end login (client_authenticated_with_userpass id username login),
                request_bytes r ++ rest,
              )))
          ≡ some (
              if login
              then reached try lookup local_addr rest
                  (p.answers ++ 1 ∷ 0 ∷ [])
                  (found try lookup local_addr r.destination r.port)
              else (ok none, p.answers ++ 1 ∷ 1 ∷ []))
    unfolding after_auth
    logged_in p true f v h =
        requested (say (1 ∷ 0 ∷ []) (note (client_authenticated_with_userpass id username true) p))
          f v h
    logged_in p false f v h = refl

    authenticated :
        (p : Progress) (m : Option AuthMethod)
        → p.answers ≡ method_reply m
        → IsText 255 username
        → IsText 255 password
        → 255 ≤ fuel
        → IsRequestable r.destination
        → r.port < 256 ^ 2
        → outline (
            authenticate id try lookup local_addr sizes fuel s
              (spoken m username password ++ (request_bytes r ++ rest))
              p
              m)
          ≡ some (served try lookup local_addr s username password r rest m)
    unfolding authenticate served
    authenticated p none e hu hp f v h = ap (λ a. some (ok none, a)) e
    authenticated p (some no_auth) e hu hp f v h =
        requested p f v h
        ∙ ap
            (λ a. some (
              reached try lookup local_addr rest a
                (found try lookup local_addr r.destination r.port)))
            e
    authenticated p (some username_and_password) e hu hp f v h =
        ap (λ x. outline (after_auth id try lookup local_addr sizes fuel p x))
          (handle_userpass_auth_reads id s.users username password (request_bytes r ++ rest)
            hu.chars hp.chars)
        ∙ logged_in p (client_login username password s.users) f v h
        ∙ ap
            (λ b. some (
              if b
              then reached try lookup local_addr rest (p.answers ++ 1 ∷ 0 ∷ [])
                  (found try lookup local_addr r.destination r.port)
              else (ok none, p.answers ++ 1 ∷ 1 ∷ [])))
            (client_login_lem username password s.users)
        ∙ ap
            (λ a. some (
              if has_password (find username s.users) password
              then reached try lookup local_addr rest (a ++ 1 ∷ 0 ∷ [])
                  (found try lookup local_addr r.destination r.port)
              else (ok none, a ++ 1 ∷ 1 ∷ [])))
            e

    -- With the method that the server selects, which is the one that is to be chosen.
    served_by :
        (methods : Bytes) (m : Option AuthMethod)
        → select_auth_method s methods ≡ m
        → IsText 255 username
        → IsText 255 password
        → 255 ≤ fuel
        → IsRequestable r.destination
        → r.port < 256 ^ 2
        → outline (
            handle_socks5_inner id try lookup local_addr sizes fuel s (
              5 ∷ length methods ∷ methods
              ++ (spoken m username password ++ (request_bytes r ++ rest))))
          ≡ some (served try lookup local_addr s username password r rest m)
    unfolding handle_socks5_inner after_handshake
    served_by methods m c hu hp f v h =
        let start : Progress = record { answers = []; events = [] } in
        let told : Option AuthMethod → Progress =
          λ n. say (handshake_response n) (note (selected id n) start) in
        let bytes = spoken m username password ++ (request_bytes r ++ rest) in
        ap (λ x. outline (after_handshake id try lookup local_addr sizes fuel s start x))
          (parse_handshake_lem 5 methods bytes)
        ∙ ap (λ n. outline (authenticate id try lookup local_addr sizes fuel s bytes (told n) n)) c
        ∙ authenticated (told m) m (handshake_response-method_reply m) hu hp f v h

    -- A client that sends a handshake of version 5 with any methods, then what the method that is chosen
    -- asks for, and then a request, is served to the end. The answer to the handshake has the method: none
    -- needed before name and password, of those that are enabled and offered, or 255. Without a method, or
    -- where no user has this name and password, that is said and that is all. Otherwise the first of the
    -- request's addresses that connects, its name's with its port, is relayed to, with the bytes behind the
    -- request left for the relay, and the answer has code 0 and the bound address; where none connects the
    -- code is that of the latest that refused, or 4; and where the name is not found that is the error. Its
    -- texts and its request are such that they can be sent, and 255 units of fuel are enough, however the
    -- socket cuts a domain name into pieces.
    pub handle_socks5_inner-served :
        (methods : Bytes)
        → IsText 255 username
        → IsText 255 password
        → 255 ≤ fuel
        → IsRequestable r.destination
        → r.port < 256 ^ 2
        → outline (
            handle_socks5_inner id try lookup local_addr sizes fuel s (
              5 ∷ length methods ∷ methods
              ++ (spoken (chosen s methods) username password ++ (request_bytes r ++ rest))))
          ≡ some (served try lookup local_addr s username password r rest (chosen s methods))
    handle_socks5_inner-served methods hu hp f v h =
        served_by methods (chosen s methods) (select_auth_method-chosen s methods) hu hp f v h
