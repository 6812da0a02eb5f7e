-- ===== src/Server/Relay/Delivery.antt =====
-- The relay of dust-devil/src/socks5/copy.rs, where the sockets are ready.
use dust_devil.Base.{
  ℕ, suc, ◌+◌, ◌≤◌, ◌≡◌, refl, sym, ap, ◌∙◌, Bool, true, false, List, [], ◌∷◌, ◌++◌, append_assoc,
  append-nil, length, length-append, ◌==◌, take, drop, take-append-drop, length-drop, arith,
}
use dust_devil.Io.{Bytes}
use dust_devil.Server.Relay.{
  running, finished, ReadAnswer, got, WriteAnswer, took, Answer, done, Pipe, ClientContext,
  register, Polled, ready, run, shut_down, transfer_one_direction, poll_both, copy_bidirectional,
}

-- A source that gives pieces of one byte at least, `(b, bs)` the byte and the others, and then ends.
abbrev pub pieces : List (ℕ × Bytes) → List ReadAnswer
pieces [] = got [] ∷ []
pieces ((b, bs) ∷ more) = got (b ∷ bs) ∷ pieces more

-- All the bytes of the pieces.
abbrev pub joined : List (ℕ × Bytes) → Bytes
joined [] = []
joined ((b, bs) ∷ more) = b ∷ (bs ++ joined more)

-- A sink that takes a byte and `n` more, where there are as many, for each `n`.
abbrev pub takes : List ℕ → List WriteAnswer
takes [] = []
takes (n ∷ ns) = took (suc n) ∷ takes ns

-- A direction that runs.
abbrev pub flowing :
    Bytes
    → List (ℕ × Bytes)
    → List WriteAnswer
    → (flushes shutdowns : List Answer) → (received written : Bytes) → Pipe
flowing u more ws fl sh rc wr = record {
  state = running;
  unread = u;
  reads = pieces more;
  writes = ws;
  flushes = done ∷ fl;
  shutdowns = done ∷ sh;
  received = rc;
  written = wr;
}

abbrev Delivers : Bytes → Polled × Pipe × ClientContext → Type 0
Delivers bs r = (r.0 ≡ ready) × (r.1.written ≡ bs) × (r.1.state ≡ finished)

regroup : (n : ℕ) (wr u rest : Bytes) → (wr ++ take n u) ++ (drop n u ++ rest) ≡ wr ++ (u ++ rest)
regroup n wr u rest =
    append_assoc wr (take n u) (drop n u ++ rest)
    ∙ ap (λ t. wr ++ t)
        (sym (append_assoc (take n u) (drop n u) rest) ∙ ap (λ t. t ++ rest) (take-append-drop n u))

took_some : (n : ℕ) → (suc n == 0) ≡ false
took_some n = ground arith

goes_on :
    (b : Bool) (w w' : Bytes) (x y : Polled × Pipe × ClientContext)
    → b ≡ false
    → w' ≡ w
    → Delivers w' y
    → Delivers w (elim b [ true ↦ x | false ↦ y ])
goes_on true w w' x y e same d = cc
goes_on false w w' x y e same d = (d.0, d.1 ∙ same, d.2)

module _ (way : Bool) (fl sh : List Answer) where
  run-Delivers :
      (ns : List ℕ) (u : Bytes) (more : List (ℕ × Bytes)) (ws : List WriteAnswer) (rc wr : Bytes)
      (c : ClientContext)
      → length u + length (joined more) ≤ length ns
      → Delivers (wr ++ (u ++ joined more)) (run way (takes ns) (flowing u more ws fl sh rc wr) c)
  unfolding run shut_down
  run-Delivers [] [] [] ws rc wr c h = (refl, sym (append-nil wr), refl)
  run-Delivers [] [] ((b, bs) ∷ more) ws rc wr c h = absurd (omega arith)
  run-Delivers [] (b ∷ u) more ws rc wr c h = absurd (omega arith)
  run-Delivers (n ∷ ns) [] [] ws rc wr c h = (refl, sym (append-nil wr), refl)
  run-Delivers (n ∷ ns) [] ((b, bs) ∷ more) ws rc wr c h =
      goes_on (suc n == 0) _ _ _ _ (took_some n) (regroup (suc n) wr (b ∷ bs) (joined more)) (
        run-Delivers ns (drop n bs) more (takes ns) (rc ++ (b ∷ bs)) (wr ++ take (suc n) (b ∷ bs))
          (register way (length (take (suc n) (b ∷ bs))) c)
          (omega (arith, h, length-drop n bs, length-append bs (joined more))))
  run-Delivers (n ∷ ns) (b ∷ u) more ws rc wr c h =
      goes_on (suc n == 0) _ _ _ _ (took_some n) (regroup (suc n) wr (b ∷ u) (joined more)) (
        run-Delivers ns (drop n u) more (takes ns) rc (wr ++ take (suc n) (b ∷ u))
          (register way (length (take (suc n) (b ∷ u))) c) (omega (arith, h, length-drop n u)))

both_ready :
    (polls : ℕ) (src dst : Pipe) (c : ClientContext) (v w : Bytes)
    → let a = transfer_one_direction true src c in
      Delivers v a
      → Delivers w (transfer_one_direction false dst a.2)
      → let r = copy_bidirectional (suc polls) src dst c in
        (r.0 ≡ ready) × (r.1.written ≡ v) × (r.2.written ≡ w)
unfolding copy_bidirectional poll_both
both_ready polls src dst c v w da db = ground (arith, da, db)

-- Where both sources give pieces of any sizes and then end, and the sinks take at least a byte
-- whenever they are asked, and are asked often enough for all the bytes, then flush and shut down, the
-- relay ends without an error and has written in each direction all bytes of the pieces, in order.
pub copy_bidirectional_delivers :
    (polls : ℕ) (out back : List (ℕ × Bytes)) (ns ms : List ℕ) (fl sh fl' sh' : List Answer)
    (c : ClientContext)
    → length (joined out) ≤ length ns
    → length (joined back) ≤ length ms
    → let r =
        copy_bidirectional
          (suc polls)
          (flowing [] out (takes ns) fl sh [] [])
          (flowing [] back (takes ms) fl' sh' [] [])
          c in
      (r.0 ≡ ready) × (r.1.written ≡ joined out) × (r.2.written ≡ joined back)
unfolding transfer_one_direction
copy_bidirectional_delivers polls out back ns ms fl sh fl' sh' c h k =
    let a = run true (takes ns) (flowing [] out (takes ns) fl sh [] []) c in
    both_ready polls (flowing [] out (takes ns) fl sh [] [])
      (flowing [] back (takes ms) fl' sh' [] []) c (joined out) (joined back)
      (run-Delivers true fl sh ns [] out (takes ns) [] [] c (omega (arith, h)))
      (run-Delivers false fl' sh' ms [] back (takes ms) [] [] a.2 (omega (arith, k)))
