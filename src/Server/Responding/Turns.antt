-- ===== src/Server/Responding/Turns.antt =====
-- What a schedule of dust-devil/src/sandstorm/response_handler.rs asks for, and what each turn adds.
use mathlib.Core.Path.{subst}
use dust_devil.Base.{
  ◌≡◌, refl, sym, ap, ◌∙◌, Bool, true, false, Option, List, [], ◌∷◌, ◌++◌, append-nil,
  if◌then◌else◌,
}
use dust_devil.Io.{Error, ErrorKind, error_new}
use dust_devil.Serialize.Containers.{Result, ok, err}
use dust_devil.Protocol.Responses.{Response}
use dust_devil.Server.Responding.{
  socks5_answer, sandstorm_answer, metrics_answer, take_first, HandlerState, Notification, write,
  with_socks, with_sandstorm, with_metrics, handle_notification, Branch, notified, notifier_closed,
  Turn, goes_on, breaks, fails, turn, first_of, select,
}
use dust_devil.Server.Responding.Queues.{
  Kind, for_socks, for_sandstorm, for_metrics, only, ServesResult, take_first-Serves,
}
use dust_devil.Server.Responding.Kinds.{
  IsOf, socks5-IsOf, sandstorm-IsOf, metrics-IsOf, seen, unchanged, Adds, with_socks-Adds,
  with_sandstorm-Adds, with_metrics-Adds,
}
use dust_devil.Server.Responding.Notified.{
  replies, seen-same, streams_after, write-Adds_event, event_kind, handle_notification-Adds,
}

-- What a branch is asked for, by whether the notifications have ended and whether events are streamed.
unfoldable pub asked_by : (closed streaming : Bool) → Branch → List Response
unfolding replies
asked_by true streaming b = []
asked_by false streaming (notified n) = replies streaming n
asked_by false streaming b = []

abbrev pub closes : Branch → Bool → Bool
closes notifier_closed closed = true
closes b closed = closed

unfoldable pub streams : (closed streaming : Bool) → Branch → Bool
unfolding streams_after
streams true streaming b = streaming
streams false streaming (notified n) = streams_after streaming n
streams false streaming b = streaming

-- What a whole schedule asks for.
unfoldable pub asked : (closed streaming : Bool) → List Branch → List Response
unfolding asked_by streams
asked closed streaming [] = []
asked closed streaming (b ∷ bs) =
    asked_by closed streaming b ++ asked (closes b closed) (streams closed streaming b) bs

-- What a turn adds to what is seen of a kind, and whether it ends the notifications or streams events.
unfoldable pub TurnAdds : Kind → HandlerState → Branch → Turn → Type 0
TurnAdds k s b (goes_on s') =
    (seen k s' ≡ seen k s ++ only k (asked_by s.closed s.streaming b))
    × (s'.closed ≡ closes b s.closed)
    × (s'.streaming ≡ streams s.closed s.streaming b)
TurnAdds k s b (breaks s') = s' ≡ s
TurnAdds k s b (fails e) = Unit

first_of-TurnAdds :
    {E : Type 0} (k : Kind) (b : Branch) (answer : E → Option Response) (q : List E)
    (s : HandlerState) (f : Result (List E × List Response) Error → Result HandlerState Error)
    → only k (asked_by s.closed s.streaming b) ≡ []
    → s.closed ≡ closes b s.closed
    → s.streaming ≡ streams s.closed s.streaming b
    → ((e : E) (q' : List E)
        → q ≡ e ∷ q'
        → Adds k s [] s.streaming (f (take_first answer e q' s.written)))
    → TurnAdds k s b (first_of answer q s.written f s)
unfolding TurnAdds only
first_of-TurnAdds k b answer [] s f n c d h = (unchanged k s _ n, c, d)
first_of-TurnAdds k b answer (e ∷ q) s f n c d h =
    of_result (f (take_first answer e q s.written)) (h e q refl)
  where
    of_result :
        (r : Result HandlerState Error) → Adds k s [] s.streaming r → TurnAdds k s b (turn r)
    of_result (ok s') a = (a.0 ∙ ap (λ t. seen k s ++ t) (sym n), a.1 ∙ c, a.2 ∙ d)
    of_result (err x) a = tt

none_asked :
    (k : Kind) (closed streaming : Bool) (b : Branch)
    → asked_by closed streaming b ≡ []
    → only k (asked_by closed streaming b) ≡ []
unfolding only
none_asked k closed streaming b e = ap (only k) e

-- A branch that does not switch the stream leaves it as it is.
streams_still :
    (b : Branch)
    → ((streaming : Bool) → streams false streaming b ≡ streaming)
    → (closed streaming : Bool) → streaming ≡ streams closed streaming b
unfolding streams
streams_still b h true streaming = refl
streams_still b h false streaming = sym (h streaming)

module _ (k : Kind) (s : HandlerState) where
  notified-TurnAdds :
      (n : Notification) (closed : Bool)
      → s.closed ≡ closed
      → TurnAdds k s (notified n) (if closed then goes_on s else turn (handle_notification n s))
  unfolding TurnAdds asked_by streams only
  notified-TurnAdds n true e = (
    unchanged k s _ (ap (λ c. only k (asked_by c s.streaming (notified n))) e),
    refl,
    ap (λ c. streams c s.streaming (notified n)) (sym e),
  )
  notified-TurnAdds n false e = of_result (handle_notification n s) (handle_notification-Adds k n s)
    where
      of_result :
          (r : Result HandlerState Error)
          → Adds k s (replies s.streaming n) (streams_after s.streaming n) r
          → TurnAdds k s (notified n) (turn r)
      of_result (ok s') a = (
        a.0 ∙ ap (λ c. seen k s ++ only k (asked_by c s.streaming (notified n))) (sym e),
        a.1,
        a.2 ∙ ap (λ c. streams c s.streaming (notified n)) (sym e),
      )
      of_result (err x) a = tt

  -- A branch that is not a notification asks for nothing.
  silent :
      (b : Branch)
      → ((closed : Bool) → asked_by closed s.streaming b ≡ [])
      → only k (asked_by s.closed s.streaming b) ≡ []
  silent b h = none_asked k s.closed s.streaming b (h s.closed)

  stays :
      (b : Branch) (t : HandlerState)
      → ((closed : Bool) → asked_by closed s.streaming b ≡ [])
      → seen k t ≡ seen k s
      → t.closed ≡ closes b s.closed
      → ((closed : Bool) → t.streaming ≡ streams closed s.streaming b)
      → TurnAdds k s b (goes_on t)
  unfolding TurnAdds
  stays b t h e c d = (e ∙ unchanged k s _ (silent b h), c, d s.closed)

  either :
      (b : Branch) (test : Bool) (x y : Turn)
      → TurnAdds k s b x
      → TurnAdds k s b y
      → TurnAdds k s b (if test then x else y)
  either b true x y p q = p
  either b false x y p q = q

  pub select-TurnAdds : (b : Branch) → TurnAdds k s b (select b s)
  unfolding select asked_by streams only TurnAdds
  select-TurnAdds (notified n) = notified-TurnAdds n s.closed refl
  select-TurnAdds notifier_closed =
      stays notifier_closed (record s { closed = true }) (elim [ true ↦ refl | false ↦ refl ])
        (seen-same k (record s { closed = true }) s refl refl refl refl) refl
        (elim [ true ↦ refl | false ↦ refl ])
  select-TurnAdds Branch.socks_answered =
      first_of-TurnAdds k Branch.socks_answered socks5_answer s.socks_receivers s (with_socks s)
        (silent Branch.socks_answered (elim [ true ↦ refl | false ↦ refl ])) refl
        (streams_still Branch.socks_answered (λ _. refl) s.closed s.streaming)
        (λ e q h. with_socks-Adds k s [] (take_first socks5_answer e q s.written) tt (
          subst
            (λ l.
              ServesResult socks5_answer (IsOf for_socks) l s.written []
                (take_first socks5_answer e q s.written))
            (sym h) (take_first-Serves socks5_answer (IsOf for_socks) socks5-IsOf e q s.written)))
  select-TurnAdds Branch.sandstorm_answered =
      first_of-TurnAdds k Branch.sandstorm_answered sandstorm_answer s.sandstorm_receivers s
        (with_sandstorm s) (silent Branch.sandstorm_answered (elim [ true ↦ refl | false ↦ refl ]))
        refl (streams_still Branch.sandstorm_answered (λ _. refl) s.closed s.streaming)
        (λ e q h. with_sandstorm-Adds k s [] (take_first sandstorm_answer e q s.written) tt (
          subst
            (λ l.
              ServesResult sandstorm_answer (IsOf for_sandstorm) l s.written []
                (take_first sandstorm_answer e q s.written))
            (sym h)
            (take_first-Serves sandstorm_answer (IsOf for_sandstorm) sandstorm-IsOf e q s.written)))
  select-TurnAdds Branch.metrics_answered =
      first_of-TurnAdds k Branch.metrics_answered metrics_answer s.metrics_receivers s
        (with_metrics s) (silent Branch.metrics_answered (elim [ true ↦ refl | false ↦ refl ])) refl
        (streams_still Branch.metrics_answered (λ _. refl) s.closed s.streaming)
        (λ e q h. with_metrics-Adds k s [] (take_first metrics_answer e q s.written) tt (
          subst
            (λ l.
              ServesResult metrics_answer (IsOf for_metrics) l s.written []
                (take_first metrics_answer e q s.written))
            (sym h)
            (take_first-Serves metrics_answer (IsOf for_metrics) metrics-IsOf e q s.written)))
  select-TurnAdds (Branch.event e) =
      either (Branch.event e) s.streaming (goes_on (write (Response.event_stream e) s)) (goes_on s)
        (stays (Branch.event e) (write (Response.event_stream e) s)
          (elim [ true ↦ refl | false ↦ refl ])
          ((write-Adds_event k s (Response.event_stream e) (event_kind e)).0
            ∙ append-nil (seen k s))
          refl (elim [ true ↦ refl | false ↦ refl ]))
        (stays (Branch.event e) s (elim [ true ↦ refl | false ↦ refl ]) refl refl
          (elim [ true ↦ refl | false ↦ refl ]))
  select-TurnAdds Branch.events_closed =
      either Branch.events_closed s.streaming (breaks s) (goes_on s) refl (
        stays Branch.events_closed s (elim [ true ↦ refl | false ↦ refl ]) refl refl
          (elim [ true ↦ refl | false ↦ refl ]))
  select-TurnAdds (Branch.events_lagged m) =
      either (Branch.events_lagged m) s.streaming (fails (error_new ErrorKind.other m)) (goes_on s)
        tt
        (stays (Branch.events_lagged m) s (elim [ true ↦ refl | false ↦ refl ]) refl refl
          (elim [ true ↦ refl | false ↦ refl ]))
  select-TurnAdds Branch.flushed =
      stays Branch.flushed (record s { unflushed = false }) (elim [ true ↦ refl | false ↦ refl ])
        (seen-same k (record s { unflushed = false }) s refl refl refl refl) refl
        (elim [ true ↦ refl | false ↦ refl ])
