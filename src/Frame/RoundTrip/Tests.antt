-- ===== src/Frame/RoundTrip/Tests.antt =====
-- `makeSendPacket` in a buffer of zeros.
use communicate_core.Common.{ℕ, ◌≡◌, List, some, arith, replicate}
use communicate_core.Command.{get_send_cmd_size}
use communicate_core.Frame.Samples.{from_controller}
use communicate_core.Frame.Spec.{IsFrame, HasHeader}
use communicate_core.Frame.Build.{make_send_packet}
use communicate_core.Frame.Build.Outcome.{answer_size}
use communicate_core.Frame.RoundTrip.{make_send_packet-IsFrame}

abbrev blank : List ℕ
blank = replicate 20 0

make_send_packet-IsFrame_example :
    (packet : List ℕ) × (make_send_packet 1 from_controller blank ≡ some packet)
    × HasHeader 0x02 0x01 (answer_size 1) 1 (answer_size 1) blank packet
    × IsFrame 0x01 (answer_size 1) packet
unfolding get_send_cmd_size
make_send_packet-IsFrame_example =
    make_send_packet-IsFrame 1 from_controller blank (omega arith) (omega arith) (omega arith)
      (omega arith)
