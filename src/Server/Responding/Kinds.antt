-- ===== src/Server/Responding/Kinds.antt =====
-- The kinds of responses of dust-devil/src/sandstorm/response_handler.rs, and what each queue adds to each.
use dust_devil.Base.{
  ◌≡◌, refl, sym, ap, ◌∙◌, Bool, true, false, Option, none, some, List, [], ◌∷◌, ◌++◌, append_assoc,
  append-nil, All,
}
use dust_devil.Io.{Error}
use dust_devil.Serialize.Containers.{Result, ok, err}
use dust_devil.Protocol.Responses.{Response}
use dust_devil.Server.Responding.{
  list, add, remove, MetricsReceiver, no_receiver, receiver, SocketRequestReceiver,
  handle_socks5_response, handle_sandstorm_response, socks5_answer, sandstorm_answer,
  metrics_answer, HandlerState, with_socks, with_sandstorm, with_metrics,
}
use dust_devil.Server.Responding.Queues.{
  Kind, for_socks, for_sandstorm, for_metrics, at_once, of_kind, only, only-append, only-All,
  only_none, if_some, promised, Serves, ServesResult,
}

abbrev pub same : Kind → Kind → Bool
same for_socks = elim [ for_socks ↦ true | _ ↦ false ]
same for_sandstorm = elim [ for_sandstorm ↦ true | _ ↦ false ]
same for_metrics = elim [ for_metrics ↦ true | _ ↦ false ]
same at_once = elim [ at_once ↦ true | _ ↦ false ]

-- A response of one kind, and of no other.
unfoldable pub IsOf : Kind → Response → Type 0
IsOf j r = (k : Kind) → of_kind k r ≡ same j k

pub socks5-IsOf : (e : SocketRequestReceiver) → All (IsOf for_socks) (if_some (socks5_answer e))
unfolding IsOf of_kind handle_socks5_response
socks5-IsOf none = tt
socks5-IsOf (some (list r)) =
    (elim [ for_socks ↦ refl | for_sandstorm ↦ refl | for_metrics ↦ refl | at_once ↦ refl ], tt)
socks5-IsOf (some (add r)) =
    (elim [ for_socks ↦ refl | for_sandstorm ↦ refl | for_metrics ↦ refl | at_once ↦ refl ], tt)
socks5-IsOf (some (remove r)) =
    (elim [ for_socks ↦ refl | for_sandstorm ↦ refl | for_metrics ↦ refl | at_once ↦ refl ], tt)

pub sandstorm-IsOf :
    (e : SocketRequestReceiver) → All (IsOf for_sandstorm) (if_some (sandstorm_answer e))
unfolding IsOf of_kind handle_sandstorm_response
sandstorm-IsOf none = tt
sandstorm-IsOf (some (list r)) =
    (elim [ for_socks ↦ refl | for_sandstorm ↦ refl | for_metrics ↦ refl | at_once ↦ refl ], tt)
sandstorm-IsOf (some (add r)) =
    (elim [ for_socks ↦ refl | for_sandstorm ↦ refl | for_metrics ↦ refl | at_once ↦ refl ], tt)
sandstorm-IsOf (some (remove r)) =
    (elim [ for_socks ↦ refl | for_sandstorm ↦ refl | for_metrics ↦ refl | at_once ↦ refl ], tt)

pub metrics-IsOf : (e : MetricsReceiver) → All (IsOf for_metrics) (if_some (metrics_answer e))
unfolding IsOf of_kind
metrics-IsOf no_receiver =
    (elim [ for_socks ↦ refl | for_sandstorm ↦ refl | for_metrics ↦ refl | at_once ↦ refl ], tt)
metrics-IsOf (receiver none) = tt
metrics-IsOf (receiver (some m)) =
    (elim [ for_socks ↦ refl | for_sandstorm ↦ refl | for_metrics ↦ refl | at_once ↦ refl ], tt)

All-of_kind :
    (j k : Kind) (b : Bool) (rs : List Response)
    → same j k ≡ b
    → All (IsOf j) rs
    → All (λ r. of_kind k r ≡ b) rs
unfolding IsOf
All-of_kind j k b [] e h = tt
All-of_kind j k b (r ∷ rs) e h = (h.0 k ∙ e, All-of_kind j k b rs e h.1)

only_other : (j k : Kind) (rs : List Response) → same j k ≡ false → All (IsOf j) rs → only k rs ≡ []
only_other j k rs e h = only_none k rs (All-of_kind j k false rs e h)

only_same : (j : Kind) (rs : List Response) → same j j ≡ true → All (IsOf j) rs → only j rs ≡ rs
only_same j rs e h = only-All j rs (All-of_kind j j true rs e h)

module _ {E : Type 0} (answer : E → Option Response) (j : Kind) where
  -- A step of a queue of one kind, seen from that kind and from the others.
  Serves-same :
      (q q' : List E) (out out' new : List Response)
      → same j j ≡ true
      → Serves answer (IsOf j) q out new q' out'
      → only j out' ++ promised answer q' ≡ (only j out ++ promised answer q) ++ new
  Serves-same q q' out out' new e s =
      ap (λ o. only j o ++ promised answer q') s.wrote
      ∙ ap (λ o. o ++ promised answer q') (only-append j out s.served)
      ∙ ap (λ t. (only j out ++ t) ++ promised answer q') (only_same j s.served e s.kind)
      ∙ append_assoc (only j out) s.served (promised answer q')
      ∙ ap (λ t. only j out ++ t) s.order
      ∙ sym (append_assoc (only j out) (promised answer q) new)

  Serves-other :
      (k : Kind) (q q' : List E) (out out' new : List Response)
      → same j k ≡ false
      → Serves answer (IsOf j) q out new q' out'
      → only k out' ≡ only k out
  Serves-other k q q' out out' new e s =
      ap (only k) s.wrote
      ∙ only-append k out s.served
      ∙ ap (λ t. only k out ++ t) (only_other j k s.served e s.kind)
      ∙ append-nil (only k out)

-- The answers of a kind that are still to be written.
unfoldable pub pending : Kind → HandlerState → List Response
pending for_socks s = promised socks5_answer s.socks_receivers
pending for_sandstorm s = promised sandstorm_answer s.sandstorm_receivers
pending for_metrics s = promised metrics_answer s.metrics_receivers
pending at_once s = []

-- Those written, and those still to be written.
unfoldable pub seen : Kind → HandlerState → List Response
seen k s = only k s.written ++ pending k s

-- A result that has added `new` to what is seen of a kind, and streams events as is said.
abbrev pub Adds :
    Kind → HandlerState → List Response → (streaming : Bool) → Result HandlerState Error → Type 0
Adds k s new streaming (ok s') =
    (seen k s' ≡ seen k s ++ only k new) × (s'.closed ≡ s.closed) × (s'.streaming ≡ streaming)
Adds k s new streaming (err e) = Unit

pub unchanged :
    (k : Kind) (s : HandlerState) (xs : List Response) → xs ≡ [] → seen k s ≡ seen k s ++ xs
unchanged k s xs e = sym (ap (λ t. seen k s ++ t) e ∙ append-nil (seen k s))

pub with_socks-Adds :
    (k : Kind) (s : HandlerState) (new : List Response)
    (r : Result (List SocketRequestReceiver × List Response) Error)
    → All (IsOf for_socks) new
    → ServesResult socks5_answer (IsOf for_socks) s.socks_receivers s.written new r
    → Adds k s new s.streaming (with_socks s r)
unfolding seen pending
with_socks-Adds k s new (err e) a h = tt
with_socks-Adds for_socks s new (ok (q, out)) a h = (
  Serves-same socks5_answer for_socks s.socks_receivers q s.written out new refl h
      ∙ ap (λ t. (only for_socks s.written ++ promised socks5_answer s.socks_receivers) ++ t)
          (sym (only_same for_socks new refl a)),
  refl,
  refl,
)
with_socks-Adds for_sandstorm s new (ok (q, out)) a h = (
  ap (λ t. t ++ pending for_sandstorm s)
        (Serves-other socks5_answer for_socks for_sandstorm s.socks_receivers q s.written out new
          refl h)
      ∙ unchanged for_sandstorm s (only for_sandstorm new)
          (only_other for_socks for_sandstorm new refl a),
  refl,
  refl,
)
with_socks-Adds for_metrics s new (ok (q, out)) a h = (
  ap (λ t. t ++ pending for_metrics s)
        (Serves-other socks5_answer for_socks for_metrics s.socks_receivers q s.written out new refl
          h)
      ∙ unchanged for_metrics s (only for_metrics new)
          (only_other for_socks for_metrics new refl a),
  refl,
  refl,
)
with_socks-Adds at_once s new (ok (q, out)) a h = (
  ap (λ t. t ++ pending at_once s)
        (Serves-other socks5_answer for_socks at_once s.socks_receivers q s.written out new refl h)
      ∙ unchanged at_once s (only at_once new) (only_other for_socks at_once new refl a),
  refl,
  refl,
)

pub with_sandstorm-Adds :
    (k : Kind) (s : HandlerState) (new : List Response)
    (r : Result (List SocketRequestReceiver × List Response) Error)
    → All (IsOf for_sandstorm) new
    → ServesResult sandstorm_answer (IsOf for_sandstorm) s.sandstorm_receivers s.written new r
    → Adds k s new s.streaming (with_sandstorm s r)
unfolding seen pending
with_sandstorm-Adds k s new (err e) a h = tt
with_sandstorm-Adds for_socks s new (ok (q, out)) a h = (
  ap (λ t. t ++ pending for_socks s)
        (Serves-other sandstorm_answer for_sandstorm for_socks s.sandstorm_receivers q s.written out
          new refl h)
      ∙ unchanged for_socks s (only for_socks new) (only_other for_sandstorm for_socks new refl a),
  refl,
  refl,
)
with_sandstorm-Adds for_sandstorm s new (ok (q, out)) a h = (
  Serves-same sandstorm_answer for_sandstorm s.sandstorm_receivers q s.written out new refl h
      ∙ ap
          (λ t.
            (only for_sandstorm s.written ++ promised sandstorm_answer s.sandstorm_receivers) ++ t)
          (sym (only_same for_sandstorm new refl a)),
  refl,
  refl,
)
with_sandstorm-Adds for_metrics s new (ok (q, out)) a h = (
  ap (λ t. t ++ pending for_metrics s)
        (Serves-other sandstorm_answer for_sandstorm for_metrics s.sandstorm_receivers q s.written
          out new refl h)
      ∙ unchanged for_metrics s (only for_metrics new)
          (only_other for_sandstorm for_metrics new refl a),
  refl,
  refl,
)
with_sandstorm-Adds at_once s new (ok (q, out)) a h = (
  ap (λ t. t ++ pending at_once s)
        (Serves-other sandstorm_answer for_sandstorm at_once s.sandstorm_receivers q s.written out
          new refl h)
      ∙ unchanged at_once s (only at_once new) (only_other for_sandstorm at_once new refl a),
  refl,
  refl,
)

pub with_metrics-Adds :
    (k : Kind) (s : HandlerState) (new : List Response)
    (r : Result (List MetricsReceiver × List Response) Error)
    → All (IsOf for_metrics) new
    → ServesResult metrics_answer (IsOf for_metrics) s.metrics_receivers s.written new r
    → Adds k s new s.streaming (with_metrics s r)
unfolding seen pending
with_metrics-Adds k s new (err e) a h = tt
with_metrics-Adds for_socks s new (ok (q, out)) a h = (
  ap (λ t. t ++ pending for_socks s)
        (Serves-other metrics_answer for_metrics for_socks s.metrics_receivers q s.written out new
          refl h)
      ∙ unchanged for_socks s (only for_socks new) (only_other for_metrics for_socks new refl a),
  refl,
  refl,
)
with_metrics-Adds for_sandstorm s new (ok (q, out)) a h = (
  ap (λ t. t ++ pending for_sandstorm s)
        (Serves-other metrics_answer for_metrics for_sandstorm s.metrics_receivers q s.written out
          new refl h)
      ∙ unchanged for_sandstorm s (only for_sandstorm new)
          (only_other for_metrics for_sandstorm new refl a),
  refl,
  refl,
)
with_metrics-Adds for_metrics s new (ok (q, out)) a h = (
  Serves-same metrics_answer for_metrics s.metrics_receivers q s.written out new refl h
      ∙ ap (λ t. (only for_metrics s.written ++ promised metrics_answer s.metrics_receivers) ++ t)
          (sym (only_same for_metrics new refl a)),
  refl,
  refl,
)
with_metrics-Adds at_once s new (ok (q, out)) a h = (
  ap (λ t. t ++ pending at_once s)
        (Serves-other metrics_answer for_metrics at_once s.metrics_receivers q s.written out new
          refl h)
      ∙ unchanged at_once s (only at_once new) (only_other for_metrics at_once new refl a),
  refl,
  refl,
)
