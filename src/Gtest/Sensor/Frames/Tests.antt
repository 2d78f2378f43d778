-- ===== src/Gtest/Sensor/Frames/Tests.antt =====
-- The frames of four sensors whose doubles all have the same small pattern.
use communicate_core.Common.{ℕ, ◌≡◌, refl, List, [], Option, none, some, arith, length, replicate}
use communicate_core.Memory.{IsBytes, replicate-IsBytes, load, store}
use communicate_core.Command.{get_send_cmd_size, get_recv_cmd_size}
use communicate_core.Frame.Layout.{frame_size}
use communicate_core.Frame.Crc.{calculate_packet_crc}
use communicate_core.Frame.Build.{make_recv_packet}
use communicate_core.Sensor.Readings.{Sensor, extern1, extern2, extern3, extern4, id_of}
use communicate_core.Sensor.Pipeline.{doubles}
use communicate_core.Sensor.Latest.Defs.{Latest}
use communicate_core.Gtest.Sensor.Defs.{msg_id_of, sensor_frame, fill_payload, fill_two, fill_three}
use communicate_core.Gtest.Sensor.Payload.{payload_size, AreDoubles}
use communicate_core.Gtest.Sensor.Frames.{IsSensorFrame, sensor_frame-checked}

abbrev pub values : Latest
values s k = 258

abbrev pub arrays : Sensor → List ℕ
arrays s = replicate (frame_size (payload_size s)) 0

abbrev or_empty : Option (List ℕ) → List ℕ
or_empty none = []
or_empty (some xs) = xs

abbrev pub frames : Sensor → List ℕ
frames s = or_empty (sensor_frame s (values s) (arrays s))

pub frames_built : (s : Sensor) → sensor_frame s (values s) (arrays s) ≡ some (frames s)
unfolding sensor_frame fill_payload fill_two fill_three make_recv_packet store get_send_cmd_size
    get_recv_cmd_size calculate_packet_crc load
frames_built extern1 = refl
frames_built extern2 = refl
frames_built extern3 = refl
frames_built extern4 = refl

pub arrays_fit : (s : Sensor) → length (arrays s) ≡ frame_size (payload_size s)
arrays_fit extern1 = refl
arrays_fit extern2 = refl
arrays_fit extern3 = refl
arrays_fit extern4 = refl

pub arrays-IsBytes : (s : Sensor) → IsBytes (arrays s)
arrays-IsBytes s = replicate-IsBytes (frame_size (payload_size s))

pub values-AreDoubles : (s : Sensor) → AreDoubles (doubles s) (values s)
values-AreDoubles s k q = omega arith

sensor_frame-checked_example :
    (packet frame : List ℕ) × (make_recv_packet (id_of extern3) (msg_id_of extern3) (arrays extern3)
      ≡ some packet)
    × (sensor_frame extern3 (values extern3) (arrays extern3) ≡ some frame)
    × IsSensorFrame extern3 (values extern3) packet frame
sensor_frame-checked_example =
    sensor_frame-checked extern3 (values extern3) (arrays extern3) (arrays-IsBytes extern3) refl
      (values-AreDoubles extern3)
