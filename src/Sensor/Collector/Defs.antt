-- ===== src/Sensor/Collector/Defs.antt =====
-- `sensorCollectorThread` of sensor-collector.c: an iteration of its outer loop for each return of
-- `select`. The results of `select`, `acceptUdsClient` and `udsRecvMsg` are arguments.
use communicate_core.Common.{
  ℕ, List, [], ◌∷◌, ◌++◌, map, Bool, true, not, Option, none, some, ◌>>=◌, ◌==◌, ltb, if◌then◌else◌,
  length, short_to_int, minus_one,
}
use communicate_core.Memory.{load, copy_bytes}
use communicate_core.Frame.Layout.{
  MsgId, no_id, uds2_id, extern4_id, src_id_at, cmd_at, sizeof_frame_header,
}
use communicate_core.Frame.Check.{check_packet_format}
use communicate_core.Handler.{Pointer, dispatch_command}
use communicate_core.Sensor.Data.{Effect}
use communicate_core.Sensor.Loop.{fd_loop}

-- `SENSOR_CLIENT`
pub record SensorClient : Type 0 where
  pub fd : ℕ
  pub sensor_id : ℕ

-- The locals of the thread that live across iterations, the shared `SENSOR_DATA`, and the effects so
-- far. The receive buffer of 128 bytes is not cleared between messages.
pub record Collector : Type 0 where
  pub server_sock : ℕ
  pub master_set : List ℕ
  pub max_fd : ℕ
  pub clients : List SensorClient
  pub buffer : List ℕ
  pub sensor_data : List ℕ
  pub effects : List Effect

abbrev pub collector_msg_id : MsgId
collector_msg_id = record { src_id = no_id; dst_id = uds2_id }

-- What the two calls give in this iteration: the new socket or an error, and for each descriptor the
-- received bytes, or nothing if `udsRecvMsg` returns 0 or less.
pub record Outside : Type 0 where
  pub accepted : Option ℕ
  pub receives : ℕ → Option (List ℕ)

-- A received message. As in the code, the status of the check is not used.
unfoldable pub collect_frame : Collector → List ℕ → Option Collector
collect_frame c bytes = do
  buffer ← copy_bytes (length bytes) c.buffer bytes
  status ← check_packet_format buffer collector_msg_id (length bytes)
  src ← load 1 buffer src_id_at
  cmd ← load 2 buffer cmd_at
  let payload : Pointer = record { mem = buffer; at = sizeof_frame_header }
  let response : Pointer = record { mem = c.sensor_data; at = 0 }
  done ← dispatch_command (short_to_int cmd) payload response true
  some (record c {
    buffer = buffer;
    sensor_data = done.mem;
    effects =
        c.effects
        ++ (map Effect.log done.log ++ (if src == extern4_id then Effect.signal ∷ [] else []));
  })

-- FD_CLR
unfoldable pub fd_clear : ℕ → List ℕ → List ℕ
fd_clear fd [] = []
fd_clear fd (x ∷ xs) = if x == fd then fd_clear fd xs else x ∷ fd_clear fd xs

-- The first entry of the client table with the descriptor is freed.
unfoldable pub free_client : ℕ → List SensorClient → List SensorClient
free_client fd [] = []
free_client fd (x ∷ xs) =
    if x.fd == fd then record x { fd = minus_one } ∷ xs else x ∷ free_client fd xs

unfoldable pub drop_connection : Collector → ℕ → Collector
unfolding fd_clear free_client
drop_connection c fd = record c {
  master_set = fd_clear fd c.master_set;
  clients = free_client fd c.clients;
  effects = c.effects ++ (Effect.close fd ∷ []);
}

unfoldable pub accept_connection : Collector → Option ℕ → Collector
accept_connection c none = c
accept_connection c (some sock) = record c {
  master_set = sock ∷ c.master_set;
  max_fd = if ltb c.max_fd sock then sock else c.max_fd;
}

unfoldable pub receive_from : Collector → ℕ → Option (List ℕ) → Option Collector
receive_from c fd none = some (drop_connection c fd)
receive_from c fd (some bytes) = collect_frame c bytes

-- The body of the loop over descriptors.
unfoldable pub serve_fd : Collector → (ℕ → Bool) → Outside → ℕ → Option Collector
serve_fd c is_ready outside fd =
    if not (is_ready fd)
    then some c
    else if fd == c.server_sock
    then some (accept_connection c outside.accepted)
    else receive_from c fd (outside.receives fd)

unfoldable pub serve_fds : ℕ → Collector → (ℕ → Bool) → Outside → ℕ → Option (Option Collector)
unfolding fd_loop serve_fd
serve_fds fuel c is_ready outside fd =
    fd_loop (λ c. c.max_fd) (λ c fd. serve_fd c is_ready outside fd) fuel c fd

-- The return of `select`: an error, or the descriptors that are ready.
pub data Selected : Type 0 where
  select_error : Selected
  ready : (ℕ → Bool) → Selected

unfoldable pub collector_round : ℕ → Collector → Selected → Outside → Option (Option Collector)
collector_round fuel c select_error outside = some (some c)
collector_round fuel c (ready is_ready) outside = serve_fds fuel c is_ready outside 0
