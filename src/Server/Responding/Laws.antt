-- ===== src/Server/Responding/Laws.antt =====
-- The answers of dust-devil/src/sandstorm/response_handler.rs, against the requests.
use mathlib.Core.Path.{subst}
use dust_devil.Base.{
  ◌≡◌, refl, sym, ap, ◌∙◌, Bool, true, false, Option, List, [], ◌∷◌, ◌++◌, append_assoc, append-nil,
  if◌then◌else◌, arith,
}
use dust_devil.Protocol.Responses.{Response}
use dust_devil.Server.Responding.{
  socks5_answer, sandstorm_answer, metrics_answer, HandlerState, Branch, notified, notifier_closed,
  Turn, goes_on, breaks, fails, select, is_nil, goes, Handled, still, returned, returned_error,
  handle_responses,
}
use dust_devil.Server.Responding.Queues.{
  Kind, for_socks, for_sandstorm, for_metrics, at_once, only, only-append, promised,
}
use dust_devil.Server.Responding.Kinds.{pending, seen, unchanged}
use dust_devil.Server.Responding.Turns.{asked_by, closes, streams, asked, TurnAdds, select-TurnAdds}

promised_nil :
    {E : Type 0}
    → (answer : E → Option Response) (q : List E) → is_nil q ≡ true
    → promised answer q ≡ []
unfolding promised
promised_nil answer [] h = refl
promised_nil answer (e ∷ q) h = cc

-- What the test of the loop says where it is false.
idle_closed : (s : HandlerState) → goes s ≡ false → s.closed ≡ true
idle_closed s h = ground (arith, h)

idle_pending : (s : HandlerState) → goes s ≡ false → (k : Kind) → pending k s ≡ []
unfolding pending
idle_pending s h for_socks = promised_nil socks5_answer s.socks_receivers (ground (arith, h))
idle_pending s h for_sandstorm =
    promised_nil sandstorm_answer s.sandstorm_receivers (ground (arith, h))
idle_pending s h for_metrics = promised_nil metrics_answer s.metrics_receivers (ground (arith, h))
idle_pending s h at_once = refl

idle_seen : (k : Kind) (s : HandlerState) → goes s ≡ false → only k s.written ≡ seen k s
unfolding seen
idle_seen k s h =
    sym (ap (λ t. only k s.written ++ t) (idle_pending s h k) ∙ append-nil (only k s.written))

asked_closed : (k : Kind) (streaming : Bool) (bs : List Branch) → asked true streaming bs ≡ []
unfolding asked
asked_closed k streaming [] = refl
asked_closed k streaming (notified n ∷ bs) = asked_closed k streaming bs
asked_closed k streaming (notifier_closed ∷ bs) = asked_closed k streaming bs
asked_closed k streaming (Branch.socks_answered ∷ bs) = asked_closed k streaming bs
asked_closed k streaming (Branch.sandstorm_answered ∷ bs) = asked_closed k streaming bs
asked_closed k streaming (Branch.metrics_answered ∷ bs) = asked_closed k streaming bs
asked_closed k streaming (Branch.event e ∷ bs) = asked_closed k streaming bs
asked_closed k streaming (Branch.events_closed ∷ bs) = asked_closed k streaming bs
asked_closed k streaming (Branch.events_lagged m ∷ bs) = asked_closed k streaming bs
asked_closed k streaming (Branch.flushed ∷ bs) = asked_closed k streaming bs

-- A handler that has returned with nothing left to do has written what `want` says.
EndsWith : Kind → List Response → Handled → Type 0
EndsWith k want (returned s) = goes s ≡ false → only k s.written ≡ want
EndsWith k want (still s) = Unit
EndsWith k want (returned_error e) = Unit

ends_here :
    (k : Kind) (s : HandlerState) (bs : List Branch)
    → goes s ≡ false
    → only k s.written ≡ seen k s ++ only k (asked s.closed s.streaming bs)
unfolding only
ends_here k s bs h =
    idle_seen k s h
    ∙ unchanged k s _ (
        ap (λ c. only k (asked c s.streaming bs)) (idle_closed s h)
        ∙ ap (only k) (asked_closed k s.streaming bs))

module _ (k : Kind) where
  handle_responses-EndsWith :
      (bs : List Branch) (s : HandlerState)
      → EndsWith k (seen k s ++ only k (asked s.closed s.streaming bs)) (handle_responses bs s)
  unfolding EndsWith handle_responses TurnAdds asked
  handle_responses-EndsWith [] s = by_test (goes s) refl
    where
      by_test :
          (b : Bool)
          → goes s ≡ b
          → EndsWith k
              (seen k s ++ only k (asked s.closed s.streaming []))
              (if b then still s else returned s)
      by_test true e = tt
      by_test false e = λ _. ends_here k s [] e
  handle_responses-EndsWith (b ∷ bs) s =
      by_test (goes s) refl (select b s) (select-TurnAdds k s b)
        (λ s'. handle_responses-EndsWith bs s')
    where
      regroup :
          (s' : HandlerState)
          → TurnAdds k s b (goes_on s')
          → seen k s' ++ only k (asked s'.closed s'.streaming bs)
            ≡ seen k s ++ only k (asked s.closed s.streaming (b ∷ bs))
      regroup s' t =
          ap (λ x. x ++ only k (asked s'.closed s'.streaming bs)) t.0
          ∙ append_assoc (seen k s) (only k (asked_by s.closed s.streaming b))
              (only k (asked s'.closed s'.streaming bs))
          ∙ ap
              (λ c.
                seen k s
                ++ (only k (asked_by s.closed s.streaming b) ++ only k (asked c s'.streaming bs)))
              t.1
          ∙ ap
              (λ d.
                seen k s
                ++ (only k (asked_by s.closed s.streaming b)
                    ++ only k (asked (closes b s.closed) d bs)))
              t.2
          ∙ ap (λ x. seen k s ++ x)
              (sym (
                only-append k (asked_by s.closed s.streaming b)
                  (asked (closes b s.closed) (streams s.closed s.streaming b) bs)))

      by_turn :
          (t : Turn)
          → goes s ≡ true
          → TurnAdds k s b t
          → ((s' : HandlerState)
              → EndsWith k
                  (seen k s' ++ only k (asked s'.closed s'.streaming bs))
                  (handle_responses bs s'))
          → EndsWith k (seen k s ++ only k (asked s.closed s.streaming (b ∷ bs))) (elim t [
            | goes_on s' ↦ handle_responses bs s'
            | breaks s' ↦ returned s'
            | fails e ↦ returned_error e
          ])
      by_turn (goes_on s') g a ih =
          subst (λ w. EndsWith k w (handle_responses bs s')) (regroup s' a) (ih s')
      by_turn (breaks s') g a ih = λ h. cc (ap goes a)
      by_turn (fails e) g a ih = tt

      by_test :
          (g : Bool)
          → goes s ≡ g
          → (t : Turn) → TurnAdds k s b t
          → ((s' : HandlerState)
              → EndsWith k
                  (seen k s' ++ only k (asked s'.closed s'.streaming bs))
                  (handle_responses bs s'))
          → EndsWith k (seen k s ++ only k (asked s.closed s.streaming (b ∷ bs))) (elim g [
            | false ↦ returned s
            | true ↦ elim t [
              | goes_on s' ↦ handle_responses bs s'
              | breaks s' ↦ returned s'
              | fails e ↦ returned_error e
            ]
          ])
      by_test true e t a ih = by_turn t e a ih
      by_test false e t a ih = λ _. ends_here k s (b ∷ bs) e

-- The handler at its start.
abbrev pub starting : HandlerState
starting = record {
  socks_receivers = [];
  sandstorm_receivers = [];
  metrics_receivers = [];
  streaming = false;
  written = [];
  unflushed = false;
  closed = false;
}

-- However the notifications, the answers of the main loop, the events and the flushes follow on one
-- another, a handler that returns with nothing left to do has written of each kind of responses
-- exactly what the notifications are to be answered, in the order of the notifications. The kinds are
-- the requests about the sockets of either kind, those about metrics, and all others, those that switch
-- the stream of events included; the events of the stream, which answer no notification, are of none.
pub handle_responses_answers :
    (bs : List Branch) (s : HandlerState) (k : Kind)
    → handle_responses bs starting ≡ returned s
    → goes s ≡ false
    → only k s.written ≡ only k (asked false false bs)
unfolding EndsWith seen pending promised only
handle_responses_answers bs s for_socks e =
    subst (EndsWith for_socks _) e (handle_responses-EndsWith for_socks bs starting)
handle_responses_answers bs s for_sandstorm e =
    subst (EndsWith for_sandstorm _) e (handle_responses-EndsWith for_sandstorm bs starting)
handle_responses_answers bs s for_metrics e =
    subst (EndsWith for_metrics _) e (handle_responses-EndsWith for_metrics bs starting)
handle_responses_answers bs s at_once e =
    subst (EndsWith at_once _) e (handle_responses-EndsWith at_once bs starting)
