-- ===== src/Sensor/Processing/Defs.antt =====
-- `sensorProcessingThread` of sensor-processing.c. A `double` is the 64 bits that stand for it; its
-- addition is a parameter, as the arithmetic of doubles is the machine's.
use communicate_core.Common.{ℕ, ◌+◌, ◌<◌, ◌^◌, List, [], ◌∷◌, ◌++◌, Option, some, ◌>>=◌}
use communicate_core.Memory.{load, store, copy_bytes}
use communicate_core.Command.{get_send_cmd_size}
use communicate_core.Command.Ids.{
  processing_data_id, sizeof_double, sizeof_sensor_data, extern1_at, extern2_at, extern3_at,
  extern4_at,
}
use communicate_core.Frame.Layout.{MsgId, sizeof_frame_header, sizeof_frame_tail}
use communicate_core.Frame.Build.{make_send_packet}
use communicate_core.Sensor.Data.{Effect}

-- The addition of doubles: from 64 bits and 64 bits to 64 bits.
pub record Arithmetic : Type 0 where
  pub add : ℕ → ℕ → ℕ
  pub add-lt : (a b : ℕ) → add a b < 2 ^ 64

-- The locals that live across iterations: the copy of the sensor data, the packet, the client's
-- socket; and the effects so far.
pub record Processor : Type 0 where
  pub sensor_data : List ℕ
  pub packet : List ℕ
  pub client_sock : ℕ
  pub effects : List Effect

-- `MSG_ID stMsgId={}`
abbrev pub processing_msg_id : MsgId
processing_msg_id = record { src_id = 0; dst_id = 0 }

-- The return of `pthread_cond_timedwait`.
pub data Waited : Type 0 where
  timed_out : Waited
  woken : Waited

module _ (arithmetic : Arithmetic) where
  open arithmetic use {add}

  -- The sum of the eleven readings, from left to right.
  unfoldable pub sum_readings : List ℕ → Option ℕ
  sum_readings data_bytes = do
    latitude1 ← load sizeof_double data_bytes extern1_at
    longitude1 ← load sizeof_double data_bytes (extern1_at + 8)
    altitude1 ← load sizeof_double data_bytes (extern1_at + 16)
    roll ← load sizeof_double data_bytes extern2_at
    pitch ← load sizeof_double data_bytes (extern2_at + 8)
    yaw ← load sizeof_double data_bytes (extern2_at + 16)
    az ← load sizeof_double data_bytes extern3_at
    el ← load sizeof_double data_bytes (extern3_at + 8)
    latitude4 ← load sizeof_double data_bytes extern4_at
    longitude4 ← load sizeof_double data_bytes (extern4_at + 8)
    altitude4 ← load sizeof_double data_bytes (extern4_at + 16)
    let position1 = add (add latitude1 longitude1) altitude1
    let attitude = add (add (add position1 roll) pitch) yaw
    let direction = add (add attitude az) el
    some (add (add (add direction latitude4) longitude4) altitude4)

  -- What follows the copy of an iteration that is woken: the sum, its frame, and the send.
  unfoldable pub send_result : Processor → Option Processor
  send_result p = do
    sum ← sum_readings p.sensor_data
    packet ← store sizeof_double p.packet sizeof_frame_header sum
    packet ← store sizeof_double packet (sizeof_frame_header + 8) sum
    packet ← make_send_packet processing_data_id processing_msg_id packet
    some (record p {
      packet = packet;
      effects = p.effects ++ (Effect.send p.client_sock packet ∷ []);
    })

  -- An iteration, for the return of the wait and the shared sensor data at that time.
  unfoldable pub processing_round : Processor → Waited → List ℕ → Option Processor
  processing_round p timed_out shared = some p
  processing_round p woken shared = do
    sensor_data ← copy_bytes sizeof_sensor_data p.sensor_data shared
    send_result (record p { sensor_data = sensor_data })

-- The size of the packet that is allocated once.
unfoldable pub send_data_size : ℕ
send_data_size = get_send_cmd_size processing_data_id + sizeof_frame_header + sizeof_frame_tail
