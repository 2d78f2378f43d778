-- ===== src/Frame/Request/Tests.antt =====
-- Requests built in buffers of zeros and around a payload.
use communicate_core.Common.{ℕ, ◌≡◌, refl, List, [], ◌∷◌, some, arith, replicate, bit_and}
use communicate_core.Memory.{load, store}
use communicate_core.Command.{get_send_cmd_size, get_recv_cmd_size}
use communicate_core.Frame.Layout.{packet_etx_error, frame_size}
use communicate_core.Frame.Samples.{from_controller, keep_alive_request}
use communicate_core.Frame.Spec.{IsFrame, HasHeader}
use communicate_core.Frame.Crc.{calculate_packet_crc}
use communicate_core.Frame.Build.{make_recv_packet}
use communicate_core.Frame.Check.{check_packet_format}
use communicate_core.Frame.Build.Outcome.{answer_size, request_size}
use communicate_core.Frame.Request.{make_recv_packet-IsFrame, make_recv_packet_misplaced}

abbrev blank : List ℕ
blank = replicate 20 0

abbrev with_payload : List ℕ
with_payload = 0 ∷ 0 ∷ 0 ∷ 0 ∷ 0 ∷ 0 ∷ 0 ∷ 0 ∷ 0 ∷ 0 ∷ 0 ∷ 1 ∷ 0 ∷ 0 ∷ 0 ∷ []

request_built : make_recv_packet 0 from_controller with_payload ≡ some keep_alive_request
unfolding make_recv_packet load store get_send_cmd_size get_recv_cmd_size calculate_packet_crc
request_built = refl

make_recv_packet-IsFrame_example :
    (packet : List ℕ) × (make_recv_packet 0 from_controller with_payload ≡ some packet)
    × HasHeader 0x01 0x02 (request_size 0) 0 (answer_size 0) with_payload packet
    × IsFrame 0x02 (answer_size 0) packet
unfolding get_send_cmd_size get_recv_cmd_size
make_recv_packet-IsFrame_example =
    make_recv_packet-IsFrame 0 from_controller with_payload (omega arith) (omega arith)
      (omega arith) (omega arith) refl

make_recv_packet_misplaced_example :
    (packet : List ℕ) × (result : ℕ) × (make_recv_packet 1 from_controller blank ≡ some packet)
    × (check_packet_format packet from_controller (frame_size (request_size 1)) ≡ some result)
    × (bit_and result packet_etx_error ≡ packet_etx_error)
unfolding get_send_cmd_size get_recv_cmd_size
make_recv_packet_misplaced_example =
    make_recv_packet_misplaced 1 from_controller blank (omega arith) (omega arith) (omega arith)
      (omega arith) (omega arith)
