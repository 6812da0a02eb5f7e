-- ===== src/Server/Logger/Laws.antt =====
-- The counts of dust-devil/src/logger.rs, against the events.
use dust_devil.Base.{
  ℕ, ◌+◌, ◌-◌, ◌*◌, ◌%◌, ◌^◌, ◌≤◌, ◌<◌, ◌≡◌, refl, ap, ◌∙◌, List, [], ◌∷◌, ◌++◌, arith,
}
use dust_devil.Protocol.Metrics.{Metrics}
use dust_devil.Protocol.Events.{
  EventData, new_client_connection_accepted, client_connection_finished, client_bytes_sent,
  client_bytes_received, new_sandstorm_connection_accepted, sandstorm_connection_finished,
}
use dust_devil.Server.Logger.{
  count_event, initial, MetricsRequest, Received, event, lagged, request, log_closed,
  requests_closed, metrics_task,
}

-- What an event counts for.
abbrev pub opens_client : EventData → ℕ
opens_client = elim [ new_client_connection_accepted id a ↦ 1 | _ ↦ 0 ]

abbrev pub closes_client : EventData → ℕ
closes_client = elim [ client_connection_finished id sent received r ↦ 1 | _ ↦ 0 ]

abbrev pub sends : EventData → ℕ
sends = elim [ client_bytes_sent id n ↦ n | _ ↦ 0 ]

abbrev pub receives : EventData → ℕ
receives = elim [ client_bytes_received id n ↦ n | _ ↦ 0 ]

abbrev pub opens_manager : EventData → ℕ
opens_manager = elim [ new_sandstorm_connection_accepted id a ↦ 1 | _ ↦ 0 ]

abbrev pub closes_manager : EventData → ℕ
closes_manager = elim [ sandstorm_connection_finished id r ↦ 1 | _ ↦ 0 ]

unfoldable pub sum_of : (EventData → ℕ) → List EventData → ℕ
sum_of w [] = 0
sum_of w (e ∷ es) = w e + sum_of w es

-- The counts of the events so far, each in its width.
abbrev pub tally : List EventData → Metrics
tally es = record {
  current_client_connections =
      (sum_of opens_client es + (2 ^ 32 - 1) * sum_of closes_client es) % 2 ^ 32;
  historic_client_connections = sum_of opens_client es % 2 ^ 64;
  client_bytes_sent = sum_of sends es % 2 ^ 64;
  client_bytes_received = sum_of receives es % 2 ^ 64;
  current_sandstorm_connections =
      (sum_of opens_manager es + (2 ^ 32 - 1) * sum_of closes_manager es) % 2 ^ 32;
  historic_sandstorm_connections = sum_of opens_manager es % 2 ^ 64;
}

sum_of_last :
    (w : EventData → ℕ) (es : List EventData) (e : EventData)
    → sum_of w (es ++ e ∷ []) ≡ sum_of w es + w e
unfolding sum_of
sum_of_last w [] e = omega arith
sum_of_last w (d ∷ es) e = omega (arith, sum_of_last w es e)

abbrev added : Metrics → ℕ → ℕ → ℕ → ℕ → ℕ → ℕ → Metrics
added m a b c d e f = record {
  current_client_connections = (m.current_client_connections + a + (2 ^ 32 - 1) * b) % 2 ^ 32;
  historic_client_connections = (m.historic_client_connections + a) % 2 ^ 64;
  client_bytes_sent = (m.client_bytes_sent + c) % 2 ^ 64;
  client_bytes_received = (m.client_bytes_received + d) % 2 ^ 64;
  current_sandstorm_connections = (m.current_sandstorm_connections + e + (2 ^ 32 - 1) * f) % 2 ^ 32;
  historic_sandstorm_connections = (m.historic_sandstorm_connections + e) % 2 ^ 64;
}

-- Metrics in their widths.
record Fits (m : Metrics) : Type 0 where
  clients : m.current_client_connections < 2 ^ 32
  all_clients : m.historic_client_connections < 2 ^ 64
  sent : m.client_bytes_sent < 2 ^ 64
  received : m.client_bytes_received < 2 ^ 64
  managers : m.current_sandstorm_connections < 2 ^ 32
  all_managers : m.historic_sandstorm_connections < 2 ^ 64

count_event-added :
    (e : EventData) (m : Metrics)
    → Fits m
    → count_event e m
      ≡ added m
          (opens_client e)
          (closes_client e)
          (sends e)
          (receives e)
          (opens_manager e)
          (closes_manager e)
unfolding count_event
count_event-added (new_client_connection_accepted id a) m h = ground (arith, h)
count_event-added _ m h = ground (arith, h)

tally-Fits : (es : List EventData) → Fits (tally es)
tally-Fits es = omega arith

count_event-tally :
    (e : EventData) (es : List EventData) → count_event e (tally es) ≡ tally (es ++ e ∷ [])
count_event-tally e es =
    count_event-added e (tally es) (tally-Fits es)
    ∙ ground (
      arith,
      sum_of_last opens_client es e,
      sum_of_last closes_client es e,
      sum_of_last sends es e,
      sum_of_last receives es e,
      sum_of_last opens_manager es e,
      sum_of_last closes_manager es e,
    )

-- The connections that are open and those that were ever opened, and the bytes, after some events.
unfoldable pub counts : List EventData → Metrics
unfolding sum_of
counts es = record {
  current_client_connections = sum_of opens_client es - sum_of closes_client es;
  historic_client_connections = sum_of opens_client es;
  client_bytes_sent = sum_of sends es;
  client_bytes_received = sum_of receives es;
  current_sandstorm_connections = sum_of opens_manager es - sum_of closes_manager es;
  historic_sandstorm_connections = sum_of opens_manager es;
}

-- Events whose counts fit into their widths, with no more connections closed than opened.
pub record IsCountable (es : List EventData) : Type 0 where
  pub clients_fit : sum_of opens_client es < 2 ^ 32
  pub clients_opened : sum_of closes_client es ≤ sum_of opens_client es
  pub managers_fit : sum_of opens_manager es < 2 ^ 32
  pub managers_opened : sum_of closes_manager es ≤ sum_of opens_manager es
  pub sent_fits : sum_of sends es < 2 ^ 64
  pub received_fits : sum_of receives es < 2 ^ 64

tally-eq-counts : (es : List EventData) → IsCountable es → tally es ≡ counts es
unfolding counts
tally-eq-counts es h = ground (arith, h)

-- The replies as they should be: each request is told the counts of the events before it.
unfoldable pub replies : List EventData → List Received → List (MetricsRequest × Metrics)
unfolding counts
replies past [] = []
replies past (event e ∷ rs) = replies (past ++ e ∷ []) rs
replies past (lagged n ∷ rs) = replies past rs
replies past (request r ∷ rs) = (r, counts past) ∷ replies past rs
replies past (log_closed ∷ rs) = []
replies past (requests_closed ∷ rs) = []

-- At every request the events before it are countable.
abbrev pub AllCountable : List EventData → List Received → Type 0
AllCountable past [] = Unit
AllCountable past (event e ∷ rs) = AllCountable (past ++ e ∷ []) rs
AllCountable past (lagged n ∷ rs) = AllCountable past rs
AllCountable past (request r ∷ rs) = IsCountable past × AllCountable past rs
AllCountable past (log_closed ∷ rs) = Unit
AllCountable past (requests_closed ∷ rs) = Unit

metrics_task_from :
    (past : List EventData) (rs : List Received)
    → AllCountable past rs
    → metrics_task rs (tally past) ≡ replies past rs
unfolding metrics_task replies
metrics_task_from past [] h = refl
metrics_task_from past (event e ∷ rs) h =
    ap (metrics_task rs) (count_event-tally e past) ∙ metrics_task_from (past ++ e ∷ []) rs h
metrics_task_from past (lagged n ∷ rs) h = metrics_task_from past rs h
metrics_task_from past (request r ∷ rs) h =
    λ i. (r, tally-eq-counts past h.0 i) ∷ metrics_task_from past rs h.1 i
metrics_task_from past (log_closed ∷ rs) h = refl
metrics_task_from past (requests_closed ∷ rs) h = refl

-- The metrics task answers every request, in order and up to the end of either channel, with the
-- connections that are open and that were opened and the bytes sent and received by the events that it
-- received before, where these fit into their widths and no more connections were closed than opened.
pub metrics_task-eq-replies :
    (rs : List Received) → AllCountable [] rs → metrics_task rs initial ≡ replies [] rs
unfolding sum_of
metrics_task-eq-replies rs h = metrics_task_from [] rs h
