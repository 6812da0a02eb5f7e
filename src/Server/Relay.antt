-- ===== src/Server/Relay.antt =====
-- dust-devil/src/socks5/copy.rs: the bytes of a client on their way to its destination and back. What
-- the sockets answer when they are polled is a list for each operation, in the order of the polls.
pub mod Laws
pub mod Delivery
use dust_devil.Base.{
  ℕ, zero, suc, ◌+◌, ◌%◌, ◌^◌, Bool, true, false, List, [], ◌∷◌, ◌++◌, length, ◌==◌, if◌then◌else◌,
  take, drop,
}
use dust_devil.Io.{Bytes, Error}
use dust_devil.Protocol.Events.{
  EventData, client_bytes_sent, client_bytes_received, client_source_shutdown,
  client_destination_shutdown,
}

pub data TransferState : Type 0 where
  running shutting_down finished : TransferState

-- What the source has for `poll_fill_buf` where nothing is left in the buffer. No bytes mean the end.
pub data ReadAnswer : Type 0 where
  waiting : ReadAnswer
  failed : Error → ReadAnswer
  got : Bytes → ReadAnswer

-- What `poll_write` answers: how many of the bytes it takes, all of them if it names more.
pub data WriteAnswer : Type 0 where
  waiting : WriteAnswer
  failed : Error → WriteAnswer
  took : ℕ → WriteAnswer

-- What `poll_flush` and `poll_shutdown` answer.
pub data Answer : Type 0 where
  waiting : Answer
  failed : Error → Answer
  done : Answer

-- One direction: its state, the buffer of its reader, the answers that are still to come (none left
-- means that the socket is never ready again), and all bytes that were read and written.
pub record Pipe : Type 0 where
  pub state : TransferState
  pub unread : Bytes
  pub reads : List ReadAnswer
  pub writes : List WriteAnswer
  pub flushes : List Answer
  pub shutdowns : List Answer
  pub received : Bytes
  pub written : Bytes

-- What the relay changes of a `ClientContext`, and the events sent to the logger, where there is one.
pub record ClientContext : Type 0 where
  pub client_id : ℕ
  pub bytes_sent : ℕ
  pub bytes_received : ℕ
  pub has_logger : Bool
  pub events : List EventData

abbrev pub log : EventData → ClientContext → ClientContext
log e c = record c { events = if c.has_logger then c.events ++ e ∷ [] else c.events }

unfoldable pub register_bytes_sent : ℕ → ClientContext → ClientContext
register_bytes_sent n c =
    log (client_bytes_sent c.client_id n) (record c { bytes_sent = (c.bytes_sent + n) % 2 ^ 64 })

unfoldable pub register_bytes_received : ℕ → ClientContext → ClientContext
register_bytes_received n c =
    log (client_bytes_received c.client_id n)
      (record c { bytes_received = (c.bytes_received + n) % 2 ^ 64 })

unfoldable pub register : (is_src_to_dst : Bool) → ℕ → ClientContext → ClientContext
unfolding register_bytes_sent register_bytes_received
register true n c = register_bytes_sent n c
register false n c = register_bytes_received n c

unfoldable pub log_shutdown : (is_src_to_dst : Bool) → ClientContext → ClientContext
log_shutdown true c = log (client_source_shutdown c.client_id) c
log_shutdown false c = log (client_destination_shutdown c.client_id) c

-- What `poll_fill_buf` gives.
pub data Filled : Type 0 where
  waiting : Filled
  failed : Error → Filled
  empty : Filled
  available : Filled

unfoldable pub fill_from : Bytes → List ReadAnswer → Pipe → Filled × Pipe
fill_from (b ∷ bs) rs p = (available, p)
fill_from [] [] p = (waiting, p)
fill_from [] (waiting ∷ rs) p = (waiting, record p { reads = rs })
fill_from [] (failed e ∷ rs) p = (failed e, record p { reads = rs })
fill_from [] (got [] ∷ rs) p = (empty, record p { reads = rs })
fill_from [] (got (b ∷ bs) ∷ rs) p =
    (available, record p { unread = b ∷ bs; reads = rs; received = p.received ++ (b ∷ bs) })

-- How a poll ends.
pub data Polled : Type 0 where
  pending : Polled
  failed : Error → Polled
  ready : Polled

unfoldable pub poll_shutdown : List Answer → Pipe → Polled × Pipe
poll_shutdown [] p = (pending, p)
poll_shutdown (waiting ∷ later) p = (pending, record p { shutdowns = later })
poll_shutdown (failed e ∷ later) p = (failed e, record p { shutdowns = later })
poll_shutdown (done ∷ later) p = (ready, record p { shutdowns = later; state = finished })

-- `TransferState::ShuttingDown` is entered.
unfoldable pub shut_down : Pipe → Polled × Pipe
unfolding poll_shutdown
shut_down p = poll_shutdown p.shutdowns (record p { state = shutting_down })

unfoldable pub poll_flush : List Answer → Pipe → Polled × Pipe
unfolding shut_down
poll_flush [] p = (pending, p)
poll_flush (waiting ∷ later) p = (pending, record p { flushes = later })
poll_flush (failed e ∷ later) p = (failed e, record p { flushes = later })
poll_flush (done ∷ later) p = shut_down (record p { flushes = later })

-- The writer has taken `n` bytes, which the reader drops.
unfoldable pub consume : ℕ → Pipe → Pipe
consume n p = record p { unread = drop n p.unread; written = p.written ++ take n p.unread }

abbrev pub with_context : Polled × Pipe → ClientContext → Polled × Pipe × ClientContext
with_context r c = (r.0, r.1, c)

-- `poll_fill_buf` and the test for the end of the input; `k` is what is done with a buffer that is not
-- empty.
unfoldable pub after_fill :
    (is_src_to_dst : Bool)
    → Filled × Pipe
    → ClientContext
    → (Pipe → Polled × Pipe × ClientContext)
    → Polled × Pipe × ClientContext
unfolding poll_flush log_shutdown
after_fill way (waiting, p) c k = (pending, p, c)
after_fill way (failed e, p) c k = (failed e, p, c)
after_fill way (empty, p) c k = with_context (poll_flush p.flushes p) (log_shutdown way c)
after_fill way (available, p) c k = k p

-- The loop in `TransferState::Running`, over the answers of the writer.
unfoldable pub run :
    (is_src_to_dst : Bool) → List WriteAnswer → Pipe → ClientContext → Polled × Pipe × ClientContext
unfolding fill_from after_fill shut_down consume register log_shutdown
run way [] p c = after_fill way (fill_from p.unread p.reads p) c (λ q. (pending, q, c))
run way (waiting ∷ ws) p c =
    after_fill way (fill_from p.unread p.reads p) c (λ q. (pending, record q { writes = ws }, c))
run way (failed e ∷ ws) p c =
    after_fill way (fill_from p.unread p.reads p) c (λ q. (failed e, record q { writes = ws }, c))
run way (took n ∷ ws) p c = after_fill way (fill_from p.unread p.reads p) c (λ q. elim (n == 0) [
  | true ↦ with_context (shut_down (record q { writes = ws })) (log_shutdown way c)
  | false ↦
      run way ws (consume n (record q { writes = ws })) (register way (length (take n q.unread)) c)
])

-- `transfer_one_direction`, by the state of the direction.
unfoldable pub transfer :
    TransferState → (is_src_to_dst : Bool) → Pipe → ClientContext → Polled × Pipe × ClientContext
unfolding run shut_down
transfer running way p c = run way p.writes p c
transfer shutting_down way p c = with_context (shut_down p) c
transfer finished way p c = (ready, p, c)

unfoldable pub transfer_one_direction :
    (is_src_to_dst : Bool) → Pipe → ClientContext → Polled × Pipe × ClientContext
unfolding transfer
transfer_one_direction way p c = transfer p.state way p c

-- Where the first direction fails, the second is not polled: `dst` and `c` are as it left them. Else
-- `ready!` of one and then of the other.
unfoldable pub settle :
    Polled
    → Polled
    → (src dst dst' : Pipe) → (c c' : ClientContext) → Polled × Pipe × Pipe × ClientContext
settle (failed e) b src dst dst' c c' = (failed e, src, dst, c)
settle pending (failed e) src dst dst' c c' = (failed e, src, dst', c')
settle pending pending src dst dst' c c' = (pending, src, dst', c')
settle pending ready src dst dst' c c' = (pending, src, dst', c')
settle ready b src dst dst' c c' = (b, src, dst', c')

unfoldable pub poll_both : Pipe → Pipe → ClientContext → Polled × Pipe × Pipe × ClientContext
unfolding transfer_one_direction settle
poll_both src dst c =
    let a = transfer_one_direction true src c in
    let b = transfer_one_direction false dst a.2 in settle a.0 b.0 a.1 dst b.1 a.2 b.2

-- The future is polled again after each `pending`, `polls` times at most.
unfoldable pub copy_bidirectional :
    (polls : ℕ) → Pipe → Pipe → ClientContext → Polled × Pipe × Pipe × ClientContext
unfolding poll_both
copy_bidirectional zero src dst c = (pending, src, dst, c)
copy_bidirectional (suc polls) src dst c =
    let r = poll_both src dst c in
    elim r.0 [
      | pending ↦ copy_bidirectional polls r.1 r.2 r.3
      | ready ↦ (ready, r.1, r.2, r.3)
      | failed e ↦ (failed e, r.1, r.2, r.3)
    ]
