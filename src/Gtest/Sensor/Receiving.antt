-- ===== src/Gtest/Sensor/Receiving.antt =====
-- The loop of gtest-sensor-integration.cc that receives results and looks at them, beside the two
-- threads that make them. The socket is a stream: a receive takes what is there, up to the size of
-- its buffer, and does not return while nothing is.
use communicate_core.Common.{
  ℕ, zero, suc, ◌++◌, take, drop, ◌+◌, ◌≡◌, refl, List, [], ◌∷◌, Bool, Option, none, some, ◌>>=◌,
  ◌&&◌, ◌==◌, if◌then◌else◌, length, replicate, String,
}
use communicate_core.Memory.{load, copy_bytes}
use communicate_core.Command.Ids.{sizeof_double}
use communicate_core.Frame.Layout.{
  sizeof_frame_header, extern1_id, extern2_id, extern3_id, extern4_id,
}
use communicate_core.Sensor.Readings.{Sensor, extern1, extern2, extern3, extern4}
use communicate_core.Sensor.Data.{Effect, send}
use communicate_core.Sensor.Collector.{Collector}
use communicate_core.Sensor.Latest.Defs.{Reading, collect_all}
use communicate_core.Sensor.Processing.{Arithmetic, Processor, Waited, processing_round}
use communicate_core.Gtest.Sensor.Defs.{msg_id_of}

-- `getName`; none where it ends without a value.
unfoldable pub get_name : ℕ → Option String
get_name msg_id =
    if msg_id == extern1_id
    then some "EXTERN1"
    else if msg_id == extern2_id
    then some "EXTERN2"
    else if msg_id == extern3_id
    then some "EXTERN3"
    else if msg_id == extern4_id
    then some "EXTERN4"
    else none

-- Each sensor's thread has a name.
abbrev pub name_of : Sensor → String
name_of extern1 = "EXTERN1"
name_of extern2 = "EXTERN2"
name_of extern3 = "EXTERN3"
name_of extern4 = "EXTERN4"

pub get_name_lem : (s : Sensor) → get_name (msg_id_of s).src_id ≡ some (name_of s)
unfolding get_name
get_name_lem extern1 = refl
get_name_lem extern2 = refl
get_name_lem extern3 = refl
get_name_lem extern4 = refl

-- What the test does with a result: `near` says of a double whether it is within 0.1 of 67.1.
unfoldable pub check_result : (ℕ → Bool) → List ℕ → Option Bool
check_result near bytes = do
  result_buf ← copy_bytes (length bytes) (replicate 128 0) bytes
  az ← load sizeof_double result_buf sizeof_frame_header
  el ← load sizeof_double result_buf (sizeof_frame_header + 8)
  some (near az && near el)

-- The sensors' messages that the collector takes before an iteration of the processor, and the return
-- of its wait.
pub data Turn : Type 0 where
  after : (messages : List Reading) (ret : Waited) → Turn

-- What happens next: an iteration of the processor, or a receive of the test.
pub data Act : Type 0 where
  turns : Turn → Act
  receives : Act

-- The two threads, the bytes in the socket, and the test: the rounds of its loop that are left, and
-- whether all expectations held.
pub record Receiving : Type 0 where
  pub collector : Collector
  pub processor : Processor
  pub in_socket : List ℕ
  pub left : ℕ
  pub passed : Bool

-- What was sent, as a stream.
unfoldable pub stream_of : List Effect → List ℕ
stream_of [] = []
stream_of (send fd bytes ∷ es) = bytes ++ stream_of es
stream_of (e ∷ es) = stream_of es

-- `sizeof(resultBuf)`
abbrev pub result_size : ℕ
result_size = 128

-- An iteration of the processor, whose sends come into the socket.
unfoldable pub make_turn : Arithmetic → Receiving → Turn → Option Receiving
make_turn a t (after messages ret) = do
  collected ← collect_all t.collector messages
  next ← processing_round a t.processor ret collected.sensor_data
  some (record t {
    collector = collected;
    processor = next;
    in_socket = t.in_socket ++ stream_of (drop (length t.processor.effects) next.effects);
  })

-- A round of the loop, for the rounds that are left and the bytes in the socket. With none of them the
-- receive goes on waiting.
unfoldable pub receive_result : (ℕ → Bool) → Receiving → ℕ → List ℕ → Option Receiving
receive_result near t zero bytes = some t
receive_result near t (suc left) [] = some t
receive_result near t (suc left) (x ∷ xs) = do
  passed ← check_result near (take result_size (x ∷ xs))
  some
      (record t { in_socket = drop result_size (x ∷ xs); left = left; passed = t.passed && passed })

unfoldable pub check_results : Arithmetic → (ℕ → Bool) → Receiving → List Act → Option Receiving
check_results a near t [] = some t
check_results a near t (turns turn ∷ acts) = do
  next ← make_turn a t turn
  check_results a near next acts
check_results a near t (receives ∷ acts) = do
  next ← receive_result near t t.left t.in_socket
  check_results a near next acts
