-- ===== src/Server/Relay/Laws.antt =====
-- The relay of dust-devil/src/socks5/copy.rs: which bytes are written, and what is counted.
use dust_devil.Base.{
  ℕ, zero, suc, ◌+◌, ◌%◌, ◌^◌, ◌≡◌, refl, sym, ap, ◌∙◌, Bool, true, false, not, List, [], ◌∷◌, ◌++◌,
  append_assoc, append-nil, length, length-append, ◌==◌, take, drop, take-append-drop, arith,
  Bool-cases, inl, inr,
}
use dust_devil.Io.{Bytes}
use dust_devil.Server.Relay.{
  TransferState, running, shutting_down, finished, ReadAnswer, failed, got, WriteAnswer, took,
  Answer, done, Pipe, ClientContext, register, log_shutdown, Filled, empty, available, fill_from,
  Polled, pending, ready, poll_shutdown, shut_down, poll_flush, consume, after_fill, with_context,
  run, transfer, transfer_one_direction, settle, poll_both, copy_bidirectional,
}

-- The bytes counted for a direction.
abbrev pub counted : (is_src_to_dst : Bool) → ClientContext → ℕ
counted true c = c.bytes_sent
counted false c = c.bytes_received

-- What was written is what was read, in order, but for what is still in the buffer; and it is
-- counted, modulo 2 ^ 64.
pub record IsFaithful (way : Bool) (p : Pipe) (c : ClientContext) : Type 0 where
  pub same : p.received ≡ p.written ++ p.unread
  pub count : counted way c ≡ length p.written % 2 ^ 64

-- Where a direction is left: faithful, and the other direction's count is as it was.
abbrev Leaves : Bool → ℕ → Polled × Pipe × ClientContext → Type 0
Leaves way k r = IsFaithful way r.1 r.2 × (counted (not way) r.2 ≡ k)

log_shutdown_counts :
    (way other : Bool) (c : ClientContext) → counted other (log_shutdown way c) ≡ counted other c
unfolding log_shutdown
log_shutdown_counts true true c = refl
log_shutdown_counts true false c = refl
log_shutdown_counts false true c = refl
log_shutdown_counts false false c = refl

register_counts :
    (way : Bool) (n : ℕ) (c : ClientContext)
    → (counted way (register way n c) ≡ (counted way c + n) % 2 ^ 64)
      × (counted (not way) (register way n c) ≡ counted (not way) c)
unfolding register
register_counts true n c = (refl, refl)
register_counts false n c = (refl, refl)

fill_from-IsFaithful :
    (way : Bool) (u : Bytes) (rs : List ReadAnswer) (p : Pipe) (c : ClientContext)
    → p.unread ≡ u
    → IsFaithful way p c
    → IsFaithful way (fill_from u rs p).1 c
unfolding fill_from
fill_from-IsFaithful way (b ∷ bs) rs p c e h = h
fill_from-IsFaithful way [] [] p c e h = h
fill_from-IsFaithful way [] (ReadAnswer.waiting ∷ rs) p c e h = record {
  same = h.same;
  count = h.count;
}
fill_from-IsFaithful way [] (ReadAnswer.failed x ∷ rs) p c e h = record {
  same = h.same;
  count = h.count;
}
fill_from-IsFaithful way [] (got [] ∷ rs) p c e h = record { same = h.same; count = h.count }
fill_from-IsFaithful way [] (got (b ∷ bs) ∷ rs) p c e h = record {
  same = ap (λ t. t ++ (b ∷ bs)) (h.same ∙ ap (λ u. p.written ++ u) e ∙ append-nil p.written);
  count = h.count;
}

-- What a poll of `poll_shutdown` or `poll_flush` leaves alone.
abbrev SameBytes : Pipe → Pipe → Type 0
SameBytes p q = (q.received ≡ p.received) × (q.written ≡ p.written) × (q.unread ≡ p.unread)

poll_shutdown-same : (l : List Answer) (p : Pipe) → SameBytes p (poll_shutdown l p).1
unfolding poll_shutdown
poll_shutdown-same [] p = (refl, refl, refl)
poll_shutdown-same (Answer.waiting ∷ l) p = (refl, refl, refl)
poll_shutdown-same (Answer.failed e ∷ l) p = (refl, refl, refl)
poll_shutdown-same (done ∷ l) p = (refl, refl, refl)

shut_down-same : (p : Pipe) → SameBytes p (shut_down p).1
unfolding shut_down
shut_down-same p = poll_shutdown-same p.shutdowns (record p { state = shutting_down })

poll_flush-same : (l : List Answer) (p : Pipe) → SameBytes p (poll_flush l p).1
unfolding poll_flush
poll_flush-same [] p = (refl, refl, refl)
poll_flush-same (Answer.waiting ∷ l) p = (refl, refl, refl)
poll_flush-same (Answer.failed e ∷ l) p = (refl, refl, refl)
poll_flush-same (done ∷ l) p = shut_down-same (record p { flushes = l })

SameBytes-IsFaithful :
    (way : Bool) (p q : Pipe) (c d : ClientContext)
    → SameBytes p q
    → counted way d ≡ counted way c
    → IsFaithful way p c
    → IsFaithful way q d
SameBytes-IsFaithful way p q c d s e h = record {
  same = s.0 ∙ h.same ∙ (λ i. sym s.1 i ++ sym s.2 i);
  count = e ∙ h.count ∙ ap (λ w. length w % 2 ^ 64) (sym s.1);
}

consume-IsFaithful :
    (way : Bool) (n : ℕ) (p : Pipe) (c : ClientContext)
    → IsFaithful way p c
    → IsFaithful way (consume n p) (register way (length (take n p.unread)) c)
unfolding consume
consume-IsFaithful way n p c h = record {
  same =
      h.same
      ∙ ap (λ u. p.written ++ u) (sym (take-append-drop n p.unread))
      ∙ sym (append_assoc p.written (take n p.unread) (drop n p.unread));
  count = omega (
    arith,
    (register_counts way (length (take n p.unread)) c).0,
    h.count,
    length-append p.written (take n p.unread),
  );
}

after_fill-Leaves :
    (way : Bool) (f : Filled × Pipe) (c : ClientContext) (k : Pipe → Polled × Pipe × ClientContext)
    → IsFaithful way f.1 c
    → (IsFaithful way f.1 c → Leaves way (counted (not way) c) (k f.1))
    → Leaves way (counted (not way) c) (after_fill way f c k)
unfolding after_fill
after_fill-Leaves way (Filled.waiting, p) c k h g = (h, refl)
after_fill-Leaves way (Filled.failed e, p) c k h g = (h, refl)
after_fill-Leaves way (empty, p) c k h g = (
  SameBytes-IsFaithful way p (poll_flush p.flushes p).1 c (log_shutdown way c)
      (poll_flush-same p.flushes p) (log_shutdown_counts way way c) h,
  log_shutdown_counts way (not way) c,
)
after_fill-Leaves way (available, p) c k h g = g h

write-Leaves :
    (way : Bool) (n k : ℕ) (q : Pipe) (c : ClientContext) (r : Polled × Pipe × ClientContext)
    → IsFaithful way q c
    → Leaves way k r
    → counted (not way) c ≡ k
    → Leaves way k
        (elim (n == 0) [ true ↦ with_context (shut_down q) (log_shutdown way c) | false ↦ r ])
write-Leaves way n k q c r h rest e = elim (Bool-cases (n == 0)) [
  | inl z ↦ rw z (
    SameBytes-IsFaithful way q (shut_down q).1 c (log_shutdown way c) (shut_down-same q)
        (log_shutdown_counts way way c) h,
    log_shutdown_counts way (not way) c ∙ e,
  )
  | inr z ↦ rw z rest
]

run-Leaves :
    (way : Bool) (ws : List WriteAnswer) (p : Pipe) (c : ClientContext)
    → IsFaithful way p c
    → Leaves way (counted (not way) c) (run way ws p c)
unfolding run
run-Leaves way [] p c h =
    let f = fill_from p.unread p.reads p in
    after_fill-Leaves way f c (λ q. (pending, q, c))
      (fill_from-IsFaithful way p.unread p.reads p c refl h) (λ g. (g, refl))
run-Leaves way (WriteAnswer.waiting ∷ ws) p c h =
    let f = fill_from p.unread p.reads p in
    after_fill-Leaves way f c (λ q. (pending, record q { writes = ws }, c))
      (fill_from-IsFaithful way p.unread p.reads p c refl h)
      (λ g. (record { same = g.same; count = g.count }, refl))
run-Leaves way (WriteAnswer.failed e ∷ ws) p c h =
    let f = fill_from p.unread p.reads p in
    after_fill-Leaves way f c (λ q. (Polled.failed e, record q { writes = ws }, c))
      (fill_from-IsFaithful way p.unread p.reads p c refl h)
      (λ g. (record { same = g.same; count = g.count }, refl))
run-Leaves way (took n ∷ ws) p c h =
    let f = fill_from p.unread p.reads p in
    after_fill-Leaves way f c
      (λ q. elim (n == 0) [
        | true ↦ with_context (shut_down (record q { writes = ws })) (log_shutdown way c)
        | false ↦
            run way ws (consume n (record q { writes = ws }))
              (register way (length (take n q.unread)) c)
      ])
      (fill_from-IsFaithful way p.unread p.reads p c refl h)
      (λ g.
        let q : Pipe = record f.1 { writes = ws } in
        let kept : IsFaithful way q c = record { same = g.same; count = g.count } in
        let n' = length (take n q.unread) in
        let rest =
          run-Leaves way ws (consume n q) (register way n' c) (consume-IsFaithful way n q c kept) in
        write-Leaves way n (counted (not way) c) q c (run way ws (consume n q) (register way n' c))
          kept (rest.0, rest.1 ∙ (register_counts way n' c).1) refl)

shut_down-Leaves :
    (way : Bool) (p : Pipe) (c : ClientContext)
    → IsFaithful way p c
    → Leaves way (counted (not way) c) (with_context (shut_down p) c)
shut_down-Leaves way p c h =
    (SameBytes-IsFaithful way p (shut_down p).1 c c (shut_down-same p) refl h, refl)

transfer-Leaves :
    (s : TransferState) (way : Bool) (p : Pipe) (c : ClientContext)
    → IsFaithful way p c
    → Leaves way (counted (not way) c) (transfer s way p c)
unfolding transfer
transfer-Leaves running way p c h = run-Leaves way p.writes p c h
transfer-Leaves shutting_down way p c h = shut_down-Leaves way p c h
transfer-Leaves finished way p c h = (h, refl)

-- Both directions.
BothFaithful : Polled × Pipe × Pipe × ClientContext → Type 0
BothFaithful r = IsFaithful true r.1 r.3 × IsFaithful false r.2 r.3

recount :
    (way : Bool) (p : Pipe) (c d : ClientContext)
    → counted way d ≡ counted way c
    → IsFaithful way p c
    → IsFaithful way p d
recount way p c d e h = record { same = h.same; count = e ∙ h.count }

settle-BothFaithful :
    (x y : Polled) (p q q' : Pipe) (c c' : ClientContext)
    → IsFaithful true p c × IsFaithful false q c
    → IsFaithful true p c' × IsFaithful false q' c'
    → BothFaithful (settle x y p q q' c c')
unfolding settle BothFaithful
settle-BothFaithful pending pending p q q' c c' h h' = h'
settle-BothFaithful pending ready p q q' c c' h h' = h'
settle-BothFaithful pending (Polled.failed e) p q q' c c' h h' = h'
settle-BothFaithful ready y p q q' c c' h h' = h'
settle-BothFaithful (Polled.failed e) y p q q' c c' h h' = h

poll_both-BothFaithful :
    (src dst : Pipe) (c : ClientContext)
    → IsFaithful true src c
    → IsFaithful false dst c
    → BothFaithful (poll_both src dst c)
unfolding poll_both transfer_one_direction
poll_both-BothFaithful src dst c hs hd =
    let a = transfer src.state true src c in
    let b = transfer dst.state false dst a.2 in
    let la = transfer-Leaves src.state true src c hs in
    let hd' = recount false dst c a.2 la.1 hd in
    let lb = transfer-Leaves dst.state false dst a.2 hd' in
    let hs' = recount true a.1 a.2 b.2 lb.1 la.0 in
    settle-BothFaithful a.0 b.0 a.1 dst b.1 a.2 b.2 (la.0, hd') (hs', lb.0)

-- However the sockets answer and however often the relay is polled, in each direction the bytes that
-- were written are those that were read, in their order and with none lost or repeated, but for what
-- is still in the buffer, and their number is counted, modulo 2 ^ 64.
pub copy_bidirectional-IsFaithful :
    (polls : ℕ) (src dst : Pipe) (c : ClientContext)
    → IsFaithful true src c
    → IsFaithful false dst c
    → let r = copy_bidirectional polls src dst c in
      IsFaithful true r.1 r.3 × IsFaithful false r.2 r.3
unfolding copy_bidirectional BothFaithful
copy_bidirectional-IsFaithful zero src dst c hs hd = (hs, hd)
copy_bidirectional-IsFaithful (suc polls) src dst c hs hd =
    let r = poll_both src dst c in
    let h = poll_both-BothFaithful src dst c hs hd in
    again r.0 r.1 r.2 r.3 h (copy_bidirectional-IsFaithful polls r.1 r.2 r.3 h.0 h.1)
  where
    again :
        (x : Polled) (p q : Pipe) (d : ClientContext)
        → BothFaithful (x, p, q, d)
        → BothFaithful (copy_bidirectional polls p q d)
        → BothFaithful (elim x [
          | pending ↦ copy_bidirectional polls p q d
          | ready ↦ (ready, p, q, d)
          | failed e ↦ (Polled.failed e, p, q, d)
        ])
    again pending p q d h k = k
    again ready p q d h k = h
    again (Polled.failed e) p q d h k = h
