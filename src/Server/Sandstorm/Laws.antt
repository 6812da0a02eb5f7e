-- ===== src/Server/Sandstorm/Laws.antt =====
-- Streams of requests and sessions of dust-devil/src/sandstorm/mod.rs, from the client's writing on.
use mathlib.Core.Path.{subst}
use dust_devil.Base.{
  ℕ, zero, suc, ◌<◌, ◌≡◌, refl, sym, ap, ◌∙◌, some, List, [], ◌∷◌, ◌++◌, length, append-nil,
  append_assoc, arith, All,
}
use dust_devil.Io.{Bytes, Outcome, ok, eof, err}
use dust_devil.Io.Reader.{◌>>=◌, continue, take_byte}
use dust_devil.Io.Writer.{Writer, ◌>>◌, done}
use dust_devil.Io.Wire.{Wire}
use dust_devil.Serialize.Numbers.{read_u8, read_enum}
use dust_devil.Protocol.Commands.{SandstormCommandType, read_command}
use dust_devil.Protocol.Requests.{Request, write_request, request_of, read_request}
use dust_devil.Protocol.Requests.Laws.{IsRequest, Wire-request}
use dust_devil.Protocol.Handshake.{SandstormHandshake, write_handshake, write_status}
use dust_devil.Protocol.Handshake.Laws.{IsHandshake, Wire-checked_handshake}
use dust_devil.Server.Context.{manager_login}
use dust_devil.Server.Sandstorm.{
  Session, run_command, handle_requests, handle_sandstorm_inner, handshake_status, log_in,
}

-- The client's requests, written one after the other.
unfoldable pub write_requests : List Request → Writer
write_requests [] = done
write_requests (r ∷ rs) = write_request r >> write_requests rs

-- The requests, run one after the other.
unfoldable pub run_commands : List Request → Session → Session
run_commands [] s = s
run_commands (r ∷ rs) s = run_commands rs (run_command r s)

after_command :
    (o : Outcome (SandstormCommandType × Bytes)) (fuel : ℕ) (src rest : Bytes) (r : Request)
    (s : Session)
    → o ≡ read_command src
    → continue o request_of ≡ ok (r, rest)
    → handle_requests (suc fuel) src s ≡ handle_requests fuel rest (run_command r s)
unfolding handle_requests continue
after_command (ok (c, more)) fuel src rest r s e h = ground (arith, sym e, h)
after_command eof fuel src rest r s e h = ground (arith, h)
after_command (err x) fuel src rest r s e h = ground (arith, h)

handle_requests_step :
    (fuel : ℕ) (src rest : Bytes) (r : Request) (s : Session)
    → read_request src ≡ ok (r, rest)
    → handle_requests (suc fuel) src s ≡ handle_requests fuel rest (run_command r s)
unfolding read_request ◌>>=◌
handle_requests_step fuel src rest r s h = after_command (read_command src) fuel src rest r s refl h

handle_requests_end : (fuel : ℕ) (s : Session) → handle_requests (suc fuel) [] s ≡ some (ok tt, s)
unfolding handle_requests read_command read_enum read_u8 take_byte ◌>>=◌ continue
handle_requests_end fuel s = refl

-- The bytes of requests, which `handle_requests` runs.
abbrev RunsAs : List Request → Type 0
RunsAs rs =
    (bytes : Bytes) × ((out : Bytes) → write_requests rs out ≡ (ok tt, out ++ bytes))
    × ((fuel : ℕ) (s : Session)
        → length rs < fuel
        → handle_requests fuel bytes s ≡ some (ok tt, run_commands rs s))

runs_end : (fuel : ℕ) (s : Session) → 0 < fuel → handle_requests fuel [] s ≡ some (ok tt, s)
runs_end zero s h = ground (arith, h)
runs_end (suc fuel) s h = handle_requests_end fuel s

runs_more :
    (r : Request) (rs : List Request) (first bytes : Bytes)
    → ((rest : Bytes) → read_request (first ++ rest) ≡ ok (r, rest))
    → ((fuel : ℕ) (s : Session)
        → length rs < fuel
        → handle_requests fuel bytes s ≡ some (ok tt, run_commands rs s))
    → (fuel : ℕ) (s : Session) → suc (length rs) < fuel
    → handle_requests fuel (first ++ bytes) s ≡ some (ok tt, run_commands rs (run_command r s))
runs_more r rs first bytes reads runs zero s h = ground (arith, h)
runs_more r rs first bytes reads runs (suc fuel) s h =
    handle_requests_step fuel (first ++ bytes) bytes r s (reads bytes)
    ∙ runs fuel (run_command r s) (omega (arith, h))

runs_none : RunsAs []
unfolding write_requests run_commands done
runs_none = ([], λ out. rw append-nil, runs_end)

runs_first :
    (r : Request) (rs : List Request)
    → Wire (write_request r) read_request r
    → RunsAs rs
    → RunsAs (r ∷ rs)
unfolding write_requests run_commands ◌>>◌
runs_first r rs w (bytes, writes, runs) = (
  w.bytes ++ bytes,
  λ out. rw (w.writes, writes, append_assoc),
  runs_more r rs w.bytes bytes w.reads runs,
)

requests_run : (rs : List Request) → All IsRequest rs → RunsAs rs
requests_run [] h = runs_none
requests_run (r ∷ rs) h = runs_first r rs (Wire-request r h.0) (requests_run rs h.1)

-- Requests that are values of their Rust types, with texts short enough to be written, are written
-- without an error, and the server reads what was written back and runs them in order, to the end of
-- the stream, with one unit of fuel more than there are requests.
pub handle_requests-write_requests :
    (rs : List Request) (fuel : ℕ) (s : Session)
    → All IsRequest rs
    → length rs < fuel
    → ((write_requests rs []).0 ≡ ok tt)
      × (handle_requests fuel (write_requests rs []).1 s ≡ some (ok tt, run_commands rs s))
handle_requests-write_requests rs fuel s h b =
    let (bytes, writes, runs) = requests_run rs h in
    (
      ap (λ w. w.0) (writes []),
      subst (λ bs. handle_requests fuel bs s ≡ some (ok tt, run_commands rs s))
          (ap (λ w. w.1) (sym (writes []))) (runs fuel s b),
    )

session_bytes :
    (h : SandstormHandshake) (rs : List Request)
    → IsHandshake h
    → All IsRequest rs
    → (bytes : Bytes) × ((write_handshake h >> write_requests rs) [] ≡ (ok tt, bytes))
      × ((fuel : ℕ) (s : Session)
          → length rs < fuel
          → let success = manager_login h.username h.password s.world in
            handle_sandstorm_inner fuel bytes s
            ≡ some (
              (write_status (handshake_status success) []).1,
              ok tt,
              run_commands rs (log_in h success s),
            ))
unfolding handle_sandstorm_inner ◌>>◌
session_bytes h rs v a =
    let w = Wire-checked_handshake h v in
    let (bytes, writes, runs) = requests_run rs a in
    (
      w.bytes ++ bytes,
      rw (w.writes, writes, append_assoc),
      λ fuel s b. ground (
        arith,
        w.reads bytes,
        runs fuel (log_in h (manager_login h.username h.password s.world) s) b,
      ),
    )

-- A client that writes a handshake of the right version and then requests, all with texts short
-- enough to be written, is answered by what its login gave, and then its requests are run in order
-- to the end of the stream whatever that was: also after PermissionDenied and
-- InvalidUsernameOrPassword. One unit of fuel more than there are requests is enough.
pub handle_sandstorm_inner_runs :
    (h : SandstormHandshake) (rs : List Request) (fuel : ℕ) (s : Session)
    → IsHandshake h
    → All IsRequest rs
    → length rs < fuel
    → (((write_handshake h >> write_requests rs) []).0 ≡ ok tt)
      × (handle_sandstorm_inner fuel ((write_handshake h >> write_requests rs) []).1 s
          ≡ some (
            (write_status (handshake_status (manager_login h.username h.password s.world)) []).1,
            ok tt,
            run_commands rs (log_in h (manager_login h.username h.password s.world) s),
          ))
handle_sandstorm_inner_runs h rs fuel s v a b =
    let (bytes, writes, runs) = session_bytes h rs v a in
    (
      ap (λ w. w.0) writes,
      subst
          (λ bs.
            handle_sandstorm_inner fuel bs s
            ≡ some (
              (write_status (handshake_status (manager_login h.username h.password s.world)) []).1,
              ok tt,
              run_commands rs (log_in h (manager_login h.username h.password s.world) s),
            ))
          (ap (λ w. w.1) (sym writes)) (runs fuel s b),
    )
