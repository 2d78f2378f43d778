-- ===== src/Sensor/Server/Defs.antt =====
-- `sensorServerThread` of process2.c, over a record of what it takes from headers that are not in
-- the repository (tcp-frame-format.h, uds-cmd-handler.h and uds-command.h). Its locals are those of
-- `sensorCollectorThread`, but that `sensor_data` is here an array of the thread itself,
-- `chSensorStructData`. The pointer to the tail, which nothing uses, is left out.
use communicate_core.Common.{
  ℕ, List, ◌++◌, map, Bool, true, not, Option, none, some, ◌>>=◌, ◌==◌, if◌then◌else◌, length,
  short_to_int,
}
use communicate_core.Memory.{load, copy_bytes}
use communicate_core.Handler.{Pointer, Dispatched}
use communicate_core.Sensor.Data.{Effect}
use communicate_core.Sensor.Loop.{fd_loop}
use communicate_core.Sensor.Collector.{
  Collector, Outside, accept_connection, drop_connection, Selected, select_error, ready,
}

-- The sizes and offsets of `FRAME_HEADER` and `SENSOR_DATA`, `checkPacketFormat` on two arguments,
-- and `dispatchCommand` with the logger, which is taken to leave the payload as it is.
pub record Headers : Type 0 where
  pub sizeof_frame_header : ℕ
  pub length_at : ℕ
  pub cmd_at : ℕ
  pub sizeof_sensor_data : ℕ
  pub check_packet_format : List ℕ → ℕ → Option ℕ
  pub dispatch_command : ℕ → Pointer → Pointer → Bool → Option Dispatched

-- A received message. The status of the check is not used.
unfoldable pub serve_frame : Headers → Collector → List ℕ → Option Collector
serve_frame hs c bytes = do
  buffer ← copy_bytes (length bytes) c.buffer bytes
  status ← hs.check_packet_format buffer (length bytes)
  payload_length ← load 4 buffer hs.length_at
  cmd ← load 2 buffer hs.cmd_at
  let payload : Pointer = record { mem = buffer; at = hs.sizeof_frame_header }
  let response : Pointer = record { mem = c.sensor_data; at = 0 }
  done ← hs.dispatch_command (short_to_int cmd) payload response true
  some (record c {
    buffer = buffer;
    sensor_data = done.mem;
    effects = c.effects ++ map Effect.log done.log;
  })

unfoldable pub serve_from : Headers → Collector → ℕ → Option (List ℕ) → Option Collector
serve_from hs c fd none = some (drop_connection c fd)
serve_from hs c fd (some bytes) = serve_frame hs c bytes

-- The body of the loop over descriptors.
unfoldable pub serve_sensor : Headers → Collector → (ℕ → Bool) → Outside → ℕ → Option Collector
serve_sensor hs c is_ready outside fd =
    if not (is_ready fd)
    then some c
    else if fd == c.server_sock
    then some (accept_connection c outside.accepted)
    else serve_from hs c fd (outside.receives fd)

-- An iteration of the outer loop, with fuel for the inner one.
unfoldable pub sensor_round :
    Headers → ℕ → Collector → Selected → Outside → Option (Option Collector)
unfolding fd_loop serve_sensor
sensor_round hs fuel c select_error outside = some (some c)
sensor_round hs fuel c (ready is_ready) outside =
    fd_loop (λ c. c.max_fd) (λ c fd. serve_sensor hs c is_ready outside fd) fuel c 0
