-- ===== src/Protocol/Metrics.antt =====
-- `Metrics` and `EventStreamConfigResponse` of dust-devil-core/src/sandstorm/event_stream_config.rs.
use dust_devil.Base.{ℕ, ◌<◌, ◌^◌, ◌==◌, refl, if◌then◌else◌}
use dust_devil.Io.{text, ErrorKind, error_new}
use dust_devil.Io.Reader.{Reader, ◌>>=◌, pure, fail}
use dust_devil.Io.Writer.{Writer, ◌>>◌, done}
use dust_devil.Io.Wire.{Wire, Wire-bind, Wire-end, Wire-pure}
use dust_devil.Serialize.Numbers.{write_u8, read_u8, write_u32, read_u32, write_u64, read_u64}
use dust_devil.Serialize.Numbers.Laws.{Wire-u8, Wire-uint}

pub record Metrics : Type 0 where
  pub current_client_connections : ℕ
  pub historic_client_connections : ℕ
  pub client_bytes_sent : ℕ
  pub client_bytes_received : ℕ
  pub current_sandstorm_connections : ℕ
  pub historic_sandstorm_connections : ℕ

unfoldable pub write_metrics : Metrics → Writer
write_metrics m = do
  write_u32 m.current_client_connections
  write_u64 m.historic_client_connections
  write_u64 m.client_bytes_sent
  write_u64 m.client_bytes_received
  write_u32 m.current_sandstorm_connections
  write_u64 m.historic_sandstorm_connections

unfoldable pub read_metrics : Reader Metrics
read_metrics = do
  clients ← read_u32
  all_clients ← read_u64
  sent ← read_u64
  received ← read_u64
  managers ← read_u32
  all_managers ← read_u64
  pure (record {
    current_client_connections = clients;
    historic_client_connections = all_clients;
    client_bytes_sent = sent;
    client_bytes_received = received;
    current_sandstorm_connections = managers;
    historic_sandstorm_connections = all_managers;
  })

pub record IsMetrics (m : Metrics) : Type 0 where
  pub clients : m.current_client_connections < 256 ^ 4
  pub all_clients : m.historic_client_connections < 256 ^ 8
  pub sent : m.client_bytes_sent < 256 ^ 8
  pub received : m.client_bytes_received < 256 ^ 8
  pub managers : m.current_sandstorm_connections < 256 ^ 4
  pub all_managers : m.historic_sandstorm_connections < 256 ^ 8

-- Metrics with numbers in range travel.
pub Wire-metrics : (m : Metrics) → IsMetrics m → Wire (write_metrics m) read_metrics m
unfolding write_metrics read_metrics
Wire-metrics m h = Wire-bind _ (Wire-uint 4 m.current_client_connections h.clients) (
    Wire-bind _ (Wire-uint 8 m.historic_client_connections h.all_clients) (
      Wire-bind _ (Wire-uint 8 m.client_bytes_sent h.sent) (
        Wire-bind _ (Wire-uint 8 m.client_bytes_received h.received) (
          Wire-bind _ (Wire-uint 4 m.current_sandstorm_connections h.managers)
            (Wire-end _ (Wire-uint 8 m.historic_sandstorm_connections h.all_managers) refl)))))

pub data EventStreamConfigResponse : Type 0 where
  disabled : EventStreamConfigResponse
  enabled : Metrics → EventStreamConfigResponse
  was_already_enabled : EventStreamConfigResponse

unfoldable pub config_type_byte : EventStreamConfigResponse → ℕ
config_type_byte disabled = 0
config_type_byte (enabled m) = 1
config_type_byte was_already_enabled = 2

-- The metrics that follow the type byte, if there are any.
unfoldable pub write_config_metrics : EventStreamConfigResponse → Writer
write_config_metrics (enabled m) = write_metrics m
write_config_metrics disabled = done
write_config_metrics was_already_enabled = done

-- Behind the command type.
unfoldable pub write_config_response : EventStreamConfigResponse → Writer
unfolding config_type_byte write_config_metrics
write_config_response r = do write_u8 (config_type_byte r); write_config_metrics r

unfoldable pub config_response_of : ℕ → Reader EventStreamConfigResponse
config_response_of v =
    if v == 0
    then pure disabled
    else if v == 1
    then (do m ← read_metrics; pure (enabled m))
    else if v == 2
    then pure was_already_enabled
    else fail
        (error_new ErrorKind.invalid_data (text "Invalid EventStreamConfigResponse type byte"))

unfoldable pub read_config_response : Reader EventStreamConfigResponse
unfolding config_response_of
read_config_response = do v ← read_u8; config_response_of v

abbrev pub IsConfigResponse : EventStreamConfigResponse → Type 0
IsConfigResponse (enabled m) = IsMetrics m
IsConfigResponse r = Unit {0}

pub Wire-config_response :
    (r : EventStreamConfigResponse)
    → IsConfigResponse r
    → Wire (write_config_response r) read_config_response r
unfolding write_config_response read_config_response
Wire-config_response disabled h = Wire-bind _ (Wire-u8 0) (Wire-pure disabled)
Wire-config_response (enabled m) h = Wire-bind _ (Wire-u8 1) (Wire-end _ (Wire-metrics m h) refl)
Wire-config_response was_already_enabled h = Wire-bind _ (Wire-u8 2) (Wire-pure was_already_enabled)
