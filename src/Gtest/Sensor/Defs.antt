-- ===== src/Gtest/Sensor/Defs.antt =====
-- What the sensors of gtest-sensor-integration.cc send. A double is its 64 bits. The arrays on the
-- stack are not initialised: their content is an argument.
use communicate_core.Common.{ℕ, ◌+◌, List, Option, ◌>>=◌, replicate, take}
use communicate_core.Memory.{store}
use communicate_core.Command.Ids.{sizeof_double}
use communicate_core.Frame.Layout.{
  MsgId, uds2_id, extern1_id, extern2_id, extern3_id, extern4_id, sizeof_frame_header,
}
use communicate_core.Frame.Build.{make_recv_packet}
use communicate_core.Sensor.Readings.{Sensor, extern1, extern2, extern3, extern4, id_of}
use communicate_core.Sensor.Latest.Defs.{Reading}

-- `stMsgExtern1Id` to `stMsgExtern4Id`
abbrev pub msg_id_of : Sensor → MsgId
msg_id_of extern1 = record { src_id = extern1_id; dst_id = uds2_id }
msg_id_of extern2 = record { src_id = extern2_id; dst_id = uds2_id }
msg_id_of extern3 = record { src_id = extern3_id; dst_id = uds2_id }
msg_id_of extern4 = record { src_id = extern4_id; dst_id = uds2_id }

-- The assignments to the members of the payload's struct.
unfoldable pub fill_two : (ℕ → ℕ) → List ℕ → Option (List ℕ)
fill_two value packet = do
  packet ← store sizeof_double packet sizeof_frame_header (value 0)
  store sizeof_double packet (sizeof_frame_header + 8) (value 1)

unfoldable pub fill_three : (ℕ → ℕ) → List ℕ → Option (List ℕ)
fill_three value packet = do
  packet ← store sizeof_double packet sizeof_frame_header (value 0)
  packet ← store sizeof_double packet (sizeof_frame_header + 8) (value 1)
  store sizeof_double packet (sizeof_frame_header + 16) (value 2)

unfoldable pub fill_payload : Sensor → (ℕ → ℕ) → List ℕ → Option (List ℕ)
fill_payload extern3 value packet = fill_two value packet
fill_payload s value packet = fill_three value packet

-- `achExtern1Data` to `achExtern4Data`: the frame is made, and then its payload is written.
unfoldable pub sensor_frame : Sensor → (ℕ → ℕ) → List ℕ → Option (List ℕ)
sensor_frame s value buffer = do
  packet ← make_recv_packet (id_of s) (msg_id_of s) buffer
  fill_payload s value packet

-- `sendDataRepeated`: the messages of a sensor, each of `iSize` bytes.
unfoldable pub send_data_repeated : Sensor → List ℕ → ℕ → List Reading
send_data_repeated s frame size = replicate 10 (record { sensor = s; bytes = take size frame })
