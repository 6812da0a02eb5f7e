-- ===== src/Server/Logger.antt =====
-- dust-devil/src/logger.rs: the task that counts connections and bytes from the events.
pub mod Laws
use dust_devil.Base.{ℕ, ◌+◌, ◌-◌, ◌%◌, ◌^◌, List, [], ◌∷◌}
use dust_devil.Protocol.Metrics.{Metrics}
use dust_devil.Protocol.Events.{
  EventData, new_client_connection_accepted, client_connection_finished, client_bytes_sent,
  client_bytes_received, new_sandstorm_connection_accepted, sandstorm_connection_finished,
}

abbrev pub add32 : ℕ → ℕ → ℕ
add32 a b = (a + b) % 2 ^ 32

-- One less, which wraps around at 0.
abbrev pub sub_one32 : ℕ → ℕ
sub_one32 a = (a + (2 ^ 32 - 1)) % 2 ^ 32

abbrev pub add64 : ℕ → ℕ → ℕ
add64 a b = (a + b) % 2 ^ 64

abbrev pub initial : Metrics
initial = record {
  current_client_connections = 0;
  historic_client_connections = 0;
  client_bytes_sent = 0;
  client_bytes_received = 0;
  current_sandstorm_connections = 0;
  historic_sandstorm_connections = 0;
}

unfoldable pub count_event : EventData → Metrics → Metrics
count_event (new_client_connection_accepted id a) m = record m {
  current_client_connections = add32 m.current_client_connections 1;
  historic_client_connections = add64 m.historic_client_connections 1;
}
count_event (client_connection_finished id sent received r) m = record m {
  current_client_connections = sub_one32 m.current_client_connections;
}
count_event (client_bytes_sent id n) m = record m {
  client_bytes_sent = add64 m.client_bytes_sent n;
}
count_event (client_bytes_received id n) m = record m {
  client_bytes_received = add64 m.client_bytes_received n;
}
count_event (new_sandstorm_connection_accepted id a) m = record m {
  current_sandstorm_connections = add32 m.current_sandstorm_connections 1;
  historic_sandstorm_connections = add64 m.historic_sandstorm_connections 1;
}
count_event (sandstorm_connection_finished id r) m = record m {
  current_sandstorm_connections = sub_one32 m.current_sandstorm_connections;
}
count_event e m = m

-- `MetricsRequest`, without the channels for the replies.
pub data MetricsRequest : Type 0 where
  metrics metrics_and_subscribe : MetricsRequest

-- What the `select!` of the task receives.
pub data Received : Type 0 where
  event : EventData → Received
  lagged : (amount : ℕ) → Received
  request : MetricsRequest → Received
  log_closed requests_closed : Received

-- The task, with the replies to the requests in their order.
unfoldable pub metrics_task : List Received → Metrics → List (MetricsRequest × Metrics)
unfolding count_event
metrics_task [] m = []
metrics_task (event e ∷ rs) m = metrics_task rs (count_event e m)
metrics_task (lagged n ∷ rs) m = metrics_task rs m
metrics_task (request r ∷ rs) m = (r, m) ∷ metrics_task rs m
metrics_task (log_closed ∷ rs) m = []
metrics_task (requests_closed ∷ rs) m = []
