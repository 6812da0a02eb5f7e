-- ===== src/Client/Order.antt =====
-- Which function the client of sandstorm/src/sandstorm.rs calls with which response.
use dust_devil.Base.{
  ℕ, ◌≡◌, refl, sym, ap, ◌∙◌, Bool, Option, none, some, List, [], ◌∷◌, ◌++◌, append_assoc,
  append-nil, length, if◌then◌else◌, arith, Bool-cases, inl, inr,
}
use dust_devil.Io.{Error}
use dust_devil.Serialize.Containers.{Result}
use dust_devil.Protocol.Commands.{SandstormCommandType}
use dust_devil.Protocol.Events.{Event}
use dust_devil.Protocol.Metrics.{EventStreamConfigResponse}
use dust_devil.Protocol.Requests.{Request}
use dust_devil.Protocol.Responses.{Response}
use dust_devil.Client.Kinds.{
  called_for, answered_for, called_for-last, answered_for-last, asked_queue, taken_queue,
  waiting_or_called, all_called, grown,
}
use dust_devil.Client.{
  same_command, command_of_request, command_of_response, ResponseHandlers, request_fn, notify_flush,
  call_first, pass_on, and_notify, handle_response, unexpected, flush_and_wait, shutdown_and_close,
}

-- What the client does, and what arrives.
pub data Step : Type 0 where
  asks : Request → (f : ℕ) → Step
  waits : Step
  closes : Step
  arrives : Response → Step

unfoldable pub functions_asked : SandstormCommandType → List Step → List ℕ
functions_asked c [] = []
functions_asked c (asks r f ∷ steps) =
    let rest = functions_asked c steps in
    if same_command (command_of_request r) c then f ∷ rest else rest
functions_asked c (waits ∷ steps) = functions_asked c steps
functions_asked c (closes ∷ steps) = functions_asked c steps
functions_asked c (arrives r ∷ steps) = functions_asked c steps

-- The responses of a kind that arrive. Events are none of them.
unfoldable pub responses_of : SandstormCommandType → List Step → List Response
responses_of c [] = []
responses_of c (asks r f ∷ steps) = responses_of c steps
responses_of c (waits ∷ steps) = responses_of c steps
responses_of c (closes ∷ steps) = responses_of c steps
responses_of c (arrives (Response.event_stream e) ∷ steps) = responses_of c steps
responses_of c (arrives r ∷ steps) =
    let rest = responses_of c steps in
    if same_command (command_of_response r) c then r ∷ rest else rest

module _ (receiver_of : ℕ → EventStreamConfigResponse → Option ℕ)
    (takes_event : ℕ → Event → Bool) where
  unfoldable pub run_step : Step → ResponseHandlers → Result ResponseHandlers Error
  run_step (asks r f) h = Result.ok (request_fn r f h)
  run_step waits h = Result.ok (flush_and_wait h)
  run_step closes h = Result.ok (shutdown_and_close h)
  run_step (arrives r) h = handle_response receiver_of takes_event r h

  unfoldable pub run_steps : List Step → ResponseHandlers → Result ResponseHandlers Error
  unfolding run_step
  run_steps [] h = Result.ok h
  run_steps (step ∷ steps) h = elim (run_step step h) [
    | Result.ok h' ↦ run_steps steps h'
    | Result.err e ↦ Result.err e
  ]

  -- What a step adds to what is seen of a kind.
  Shows :
      SandstormCommandType
      → List ℕ
      → List Response
      → ResponseHandlers
      → Result ResponseHandlers Error
      → Type 0
  Shows c asked answered h (Result.ok h') =
      (waiting_or_called c h' ≡ waiting_or_called c h ++ asked)
      × (answered_for c h'.calls ≡ answered_for c h.calls ++ answered)
  Shows c asked answered h (Result.err e) = Unit

  Moves : SandstormCommandType → Step → ResponseHandlers → Result ResponseHandlers Error → Type 0
  Moves c step = Shows c (functions_asked c (step ∷ [])) (responses_of c (step ∷ []))

  asks-Moves :
      (c : SandstormCommandType) (r : Request) (f : ℕ) (h : ResponseHandlers)
      → Moves c (asks r f) h (Result.ok (request_fn r f h))
  unfolding Moves Shows request_fn functions_asked responses_of
  asks-Moves c r f h = (
    ap (λ q. called_for c h.calls ++ q) (asked_queue h.queue (command_of_request r) c f)
        ∙ sym (
            append_assoc (called_for c h.calls) (h.queue c)
              (if same_command (command_of_request r) c then f ∷ [] else [])),
    sym (append-nil (answered_for c h.calls)),
  )

  called-Moves :
      (c : SandstormCommandType) (r : Response) (q : List ℕ) (h : ResponseHandlers)
      (answered : List Response)
      → h.queue (command_of_response r) ≡ q
      → answered ≡ (if same_command (command_of_response r) c then r ∷ [] else [])
      → Shows c [] answered h (and_notify (call_first receiver_of takes_event r q h))
  unfolding Shows call_first
  called-Moves c r [] h answered e a = tt
  called-Moves c r (f ∷ q) h answered e a = (
    ap (λ z. z ++ (if same_command (command_of_response r) c then q else h.queue c))
          (called_for-last c h.calls f r)
        ∙ taken_queue h.queue (command_of_response r) c f q (called_for c h.calls) e
        ∙ sym (append-nil (called_for c h.calls ++ h.queue c)),
    answered_for-last c h.calls f r ∙ ap (λ z. answered_for c h.calls ++ z) (sym a),
  )

  passed_on-Moves :
      (c : SandstormCommandType) (e : Event) (o : Option ℕ) (h : ResponseHandlers)
      → Shows c [] [] h (Result.ok (notify_flush (pass_on receiver_of takes_event e o h)))
  unfolding Shows pass_on
  passed_on-Moves c e none h =
      (sym (append-nil (waiting_or_called c h)), sym (append-nil (answered_for c h.calls)))
  passed_on-Moves c e (some k) h = elim (Bool-cases (takes_event k e)) [
    | inl takes ↦ (rw (takes, append-nil), rw (takes, append-nil))
    | inr closed ↦ (rw (closed, append-nil), rw (closed, append-nil))
  ]

  arrives-Moves :
      (c : SandstormCommandType) (r : Response) (h : ResponseHandlers)
      → Moves c (arrives r) h (handle_response receiver_of takes_event r h)
  unfolding Moves handle_response functions_asked responses_of
  arrives-Moves c (Response.event_stream e) h = passed_on-Moves c e h.event_receiver h
  arrives-Moves c r h =
      called-Moves c r (h.queue (command_of_response r)) h (responses_of c (arrives r ∷ [])) refl
        refl

  unchanged-Moves :
      (c : SandstormCommandType) (h : ResponseHandlers)
      → (waiting_or_called c h ≡ waiting_or_called c h ++ [])
        × (answered_for c h.calls ≡ answered_for c h.calls ++ [])
  unchanged-Moves c h =
      (sym (append-nil (waiting_or_called c h)), sym (append-nil (answered_for c h.calls)))

  run_step-Moves :
      (c : SandstormCommandType) (step : Step) (h : ResponseHandlers)
      → Moves c step h (run_step step h)
  unfolding run_step Moves Shows functions_asked responses_of
  run_step-Moves c (asks r f) h = asks-Moves c r f h
  run_step-Moves c waits h = unchanged-Moves c h
  run_step-Moves c closes h = unchanged-Moves c h
  run_step-Moves c (arrives r) h = arrives-Moves c r h

  functions_asked-first :
      (c : SandstormCommandType) (step : Step) (steps : List Step)
      → functions_asked c (step ∷ steps) ≡ functions_asked c (step ∷ []) ++ functions_asked c steps
  unfolding functions_asked
  functions_asked-first c (asks r f) steps = ground arith
  functions_asked-first c waits steps = refl
  functions_asked-first c closes steps = refl
  functions_asked-first c (arrives r) steps = refl

  responses_of-first :
      (c : SandstormCommandType) (step : Step) (steps : List Step)
      → responses_of c (step ∷ steps) ≡ responses_of c (step ∷ []) ++ responses_of c steps
  unfolding responses_of
  responses_of-first c (asks r f) steps = refl
  responses_of-first c waits steps = refl
  responses_of-first c closes steps = refl
  responses_of-first c (arrives (Response.event_stream e)) steps = refl
  responses_of-first c (arrives r) steps = ground arith

  -- A step that the client refuses is a response for which no function waits.
  Refuses : Step → ResponseHandlers → Result ResponseHandlers Error → Type 0
  Refuses step h (Result.ok h') = Unit
  Refuses step h (Result.err e) =
      (r : Response) × (step ≡ arrives r)
      × (e ≡ unexpected (command_of_response r))
      × (h.queue (command_of_response r) ≡ [])

  called-Refuses :
      (r : Response) (q : List ℕ) (h : ResponseHandlers)
      → h.queue (command_of_response r) ≡ q
      → Refuses (arrives r) h (and_notify (call_first receiver_of takes_event r q h))
  unfolding Refuses call_first
  called-Refuses r [] h e = (r, refl, refl, e)
  called-Refuses r (f ∷ q) h e = tt

  run_step-Refuses : (step : Step) (h : ResponseHandlers) → Refuses step h (run_step step h)
  unfolding run_step Refuses handle_response
  run_step-Refuses (asks r f) h = tt
  run_step-Refuses waits h = tt
  run_step-Refuses closes h = tt
  run_step-Refuses (arrives (Response.event_stream e)) h = tt
  run_step-Refuses (arrives r) h = called-Refuses r (h.queue (command_of_response r)) h refl

  -- What steps lead to: functions called in the order of their requests, or a response too many.
  unfoldable pub IsServed : List Step → ResponseHandlers → Result ResponseHandlers Error → Type 0
  IsServed steps h (Result.ok h') =
      (c : SandstormCommandType)
      → (waiting_or_called c h' ≡ waiting_or_called c h ++ functions_asked c steps)
        × (answered_for c h'.calls ≡ answered_for c h.calls ++ responses_of c steps)
  IsServed steps h (Result.err e) =
      (before : List Step) × (r : Response) × (after : List Step) × (steps
        ≡ before ++ arrives r ∷ after)
      × (e ≡ unexpected (command_of_response r))
      × (length (
            waiting_or_called (command_of_response r) h
            ++ functions_asked (command_of_response r) before)
          ≡ length (
              answered_for (command_of_response r) h.calls
              ++ responses_of (command_of_response r) before))

  nothing_asked : (h : ResponseHandlers) → IsServed [] h (Result.ok h)
  unfolding IsServed functions_asked responses_of
  nothing_asked h c =
      (sym (append-nil (waiting_or_called c h)), sym (append-nil (answered_for c h.calls)))

  IsServed-more :
      (step : Step) (steps : List Step) (h h1 : ResponseHandlers)
      (o : Result ResponseHandlers Error)
      → ((c : SandstormCommandType) → Moves c step h (Result.ok h1))
      → IsServed steps h1 o
      → IsServed (step ∷ steps) h o
  unfolding IsServed Moves Shows
  IsServed-more step steps h h1 (Result.ok h') m s = λ c. (
    (s c).0 ∙ grown _ _ _ (m c).0 (functions_asked-first c step steps),
    (s c).1 ∙ grown _ _ _ (m c).1 (responses_of-first c step steps),
  )
  IsServed-more step steps h h1 (Result.err e) m (before, r, after, split, kind, none_waits) = (
    step ∷ before,
    r,
    after,
    ap (λ ss. step ∷ ss) split,
    kind,
    ap length (
          sym (
            grown _ _ _ (m (command_of_response r)).0
              (functions_asked-first (command_of_response r) step before)))
        ∙ none_waits
        ∙ ap length (
            grown _ _ _ (m (command_of_response r)).1
              (responses_of-first (command_of_response r) step before)),
  )

  IsServed-first :
      (step : Step) (steps : List Step) (h : ResponseHandlers) (o : Result ResponseHandlers Error)
      → ((c : SandstormCommandType) → Moves c step h o)
      → Refuses step h o
      → ((h1 : ResponseHandlers) → IsServed steps h1 (run_steps steps h1))
      → IsServed
          (step ∷ steps)
          h
          (elim o [ Result.ok h' ↦ run_steps steps h' | Result.err e ↦ Result.err e ])
  unfolding IsServed Refuses functions_asked responses_of
  IsServed-first step steps h (Result.ok h1) m d s =
      IsServed-more step steps h h1 (run_steps steps h1) m (s h1)
  IsServed-first step steps h (Result.err e) m (r, is_response, kind, empty) s = (
    [],
    r,
    steps,
    ap (λ x. x ∷ steps) is_response,
    kind,
    all_called (command_of_response r) h.calls (h.queue (command_of_response r)) empty,
  )

  -- Whatever requests with their functions, waits, closings and responses follow on one another: where the
  -- client gets through them, then, of each kind, the functions called and those that still wait are
  -- together, and in this order, those before and then those of the requests, and the responses that
  -- they were called with are those before and then those that arrived, in order, events aside. Where it
  -- stops, it is with the error for an unexpected response, at a response before which as many of
  -- its kind had been answered as there were functions.
  pub run_steps-IsServed :
      (steps : List Step) (h : ResponseHandlers) → IsServed steps h (run_steps steps h)
  unfolding run_steps
  run_steps-IsServed [] h = nothing_asked h
  run_steps-IsServed (step ∷ steps) h =
      IsServed-first step steps h (run_step step h) (λ c. run_step-Moves c step h)
        (run_step-Refuses step h) (run_steps-IsServed steps)
