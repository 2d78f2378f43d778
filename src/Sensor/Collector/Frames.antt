-- ===== src/Sensor/Collector/Frames.antt =====
-- A received message at the collector.
pub mod Tests
use communicate_core.Common.{
  ℕ, ◌≤◌, ◌≡◌, refl, ◌∙◌, List, [], ◌∷◌, ◌++◌, map, true, some, ◌==◌, if◌then◌else◌, arith, length,
  short_to_int,
}
use communicate_core.Memory.{
  byte_at, peek, IsBytes, peek-one, load_in_range, copied, copy_in_range, length-copied,
  copied-IsBytes,
}
use communicate_core.Command.Ids.{sizeof_sensor_data}
use communicate_core.Frame.Layout.{extern4_id}
use communicate_core.Frame.Acceptance.{check_packet_format_lem}
use communicate_core.Handler.{Pointer}
use communicate_core.Handler.Effect.{reach, effect}
use communicate_core.Handler.Footprint.{effect-outside, effect-IsBytes}
use communicate_core.Handler.Dispatch.{expected_log, dispatch_command-effect}
use communicate_core.Sensor.Data.{Effect}
use communicate_core.Sensor.Collector.Defs.{Collector, collector_msg_id, collect_frame}

-- The size of `chSensorData`.
abbrev pub receive_size : ℕ
receive_size = 128

-- The buffers of the collector have their sizes and hold bytes.
pub record IsWell (c : Collector) : Type 0 where
  pub buffer_size : length c.buffer ≡ receive_size
  pub buffer_bytes : IsBytes c.buffer
  pub sensor_size : length c.sensor_data ≡ sizeof_sensor_data
  pub sensor_bytes : IsBytes c.sensor_data

pub reach-le : (id : ℕ) → reach id ≤ sizeof_sensor_data
unfolding reach
reach-le id = ground arith

-- The receive buffer behind a message, and the payload and the shared data as pointers.
abbrev pub received : Collector → List ℕ → List ℕ
received c bytes = copied (length bytes) c.buffer bytes

abbrev pub payload_of : Collector → List ℕ → Pointer
payload_of c bytes = record { mem = received c bytes; at = 11 }

abbrev pub shared_of : Collector → Pointer
shared_of c = record { mem = c.sensor_data; at = 0 }

abbrev pub command_of : Collector → List ℕ → ℕ
command_of c bytes = short_to_int (peek 2 (received c bytes) 9)

-- The shared condition is signalled for the source EXTERN4 alone.
abbrev pub signal_for : ℕ → List Effect
signal_for src = if src == extern4_id then Effect.signal ∷ [] else []

-- The collector with the message stored: its command's effect is in the shared data.
abbrev pub collected : Collector → List ℕ → Collector
collected c bytes = record c {
  buffer = received c bytes;
  sensor_data = effect (command_of c bytes) (payload_of c bytes) (shared_of c);
  effects =
      c.effects
      ++ (map Effect.log (expected_log (command_of c bytes) true)
          ++ signal_for (byte_at (received c bytes) 6));
}

module _ (c : Collector) (bytes : List ℕ) (well : IsWell c) (are_bytes : IsBytes bytes)
    (fits : length bytes ≤ receive_size) where
  pub length-received : length (received c bytes) ≡ receive_size
  length-received =
      length-copied (length bytes) c.buffer bytes (omega (arith, well.buffer_size)) (omega arith)
      ∙ well.buffer_size

  pub received-IsBytes : IsBytes (received c bytes)
  received-IsBytes =
      copied-IsBytes (length bytes) c.buffer bytes (omega (arith, well.buffer_size)) (omega arith)
        well.buffer_bytes are_bytes

  -- Whatever a message of at most 128 bytes holds, the collector stays within its buffers: the
  -- effect of its command, which for an unknown one is none, goes into the shared data, the log is
  -- written, and the condition is signalled exactly if the source is EXTERN4.
  pub collect_frame-collected : collect_frame c bytes ≡ some (collected c bytes)
  unfolding collect_frame
  collect_frame-collected =
      rw
        (
          copy_in_range (length bytes) c.buffer bytes (omega (arith, well.buffer_size))
              (omega arith),
          check_packet_format_lem (received c bytes) collector_msg_id (length bytes)
              received-IsBytes (omega (arith, length-received)) (omega (arith, length-received))
              (omega arith),
          load_in_range 1 (received c bytes) 6 (omega (arith, length-received)),
          load_in_range 2 (received c bytes) 9 (omega (arith, length-received)),
          dispatch_command-effect (payload_of c bytes) (shared_of c) true
              (omega (arith, length-received)) (command_of c bytes)
              (omega (arith, well.sensor_size, reach-le (command_of c bytes))),
          peek-one (received c bytes) 6,
        )
        refl

  pub collected-IsWell : IsWell (collected c bytes)
  collected-IsWell = record {
    buffer_size = length-received;
    buffer_bytes = received-IsBytes;
    sensor_size =
        (effect-outside (payload_of c bytes) (shared_of c) (command_of c bytes)).0
        ∙ well.sensor_size;
    sensor_bytes =
        effect-IsBytes (payload_of c bytes) (shared_of c) well.sensor_bytes (command_of c bytes);
  }
