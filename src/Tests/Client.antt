-- ===== src/Tests/Client.antt =====
-- The client of sandstorm/src/sandstorm.rs at concrete values.
use dust_devil.Base.{ℕ, ◌≡◌, Bool, true, Option, some, List, [], ◌∷◌, arith, map}
use dust_devil.Io.{ok}
use dust_devil.Protocol.Events.{Event}
use dust_devil.Protocol.Metrics.{EventStreamConfigResponse}
use dust_devil.Protocol.Requests.{Request}
use dust_devil.Protocol.Responses.{Response}
use dust_devil.Protocol.Responses.Laws.{response_seen}
use dust_devil.Client.{initial_handlers, request_fn, reader_task_inner}
use dust_devil.Client.Order.{Step, run_steps, IsServed, run_steps-IsServed}
use dust_devil.Client.Session.{write_responses, handled, reader_task_inner-write_responses}

abbrev receivers : ℕ → EventStreamConfigResponse → Option ℕ
receivers f r = some f

abbrev takes_all : ℕ → Event → Bool
takes_all k e = true

abbrev steps : List Step
steps =
    Step.asks Request.meow 3
    ∷ Step.asks (Request.set_buffer_size 4) 5
    ∷ Step.waits
    ∷ Step.arrives (Response.set_buffer_size true)
    ∷ Step.asks Request.meow 6
    ∷ Step.arrives Response.meow
    ∷ Step.arrives Response.meow
    ∷ Step.closes
    ∷ Step.arrives Response.meow
    ∷ []

run_steps-IsServed_example :
    IsServed receivers takes_all steps initial_handlers
      (run_steps receivers takes_all steps initial_handlers)
run_steps-IsServed_example = run_steps-IsServed receivers takes_all steps initial_handlers

abbrev responses : List Response
responses = Response.get_buffer_size 8192 ∷ Response.meow ∷ Response.shutdown ∷ []

reader_task_inner-write_responses_example :
    ((write_responses responses []).0 ≡ ok tt)
    × (reader_task_inner receivers takes_all 4
          (write_responses responses []).1
          (request_fn Request.shutdown 1 (request_fn (Request.get_buffer_size) 2 initial_handlers))
        ≡ some (
            handled receivers takes_all (map response_seen responses) (
              request_fn Request.shutdown 1
                (request_fn (Request.get_buffer_size) 2 initial_handlers))))
reader_task_inner-write_responses_example =
    reader_task_inner-write_responses receivers takes_all responses 4
      (request_fn Request.shutdown 1 (request_fn Request.get_buffer_size 2 initial_handlers))
      (omega arith, (tt, (tt, tt))) (omega arith)
