-- ===== src/Frame/Acceptance/Tests.antt =====
-- The check on a frame, on a corrupted one and on a wrong size.
use communicate_core.Common.{◌≡◌, ◌↔◌, refl, some, arith, ltb, if◌then◌else◌}
use communicate_core.Memory.{load}
use communicate_core.Frame.Layout.{packet_format_ok, packet_size_error}
use communicate_core.Frame.Samples.{
  from_controller, to_controller, keep_alive_request, keep_alive_request-IsBytes, corrupted_request,
  corrupted_request-IsBytes,
}
use communicate_core.Frame.Spec.{IsFrame}
use communicate_core.Frame.Check.{check_packet_format}
use communicate_core.Frame.Check.Verdict.{verdict}
use communicate_core.Frame.Crc.{check_packet_crc}
use communicate_core.Frame.Acceptance.{check_packet_format_lem, check_packet_format-ok_iff}

accepts : check_packet_format keep_alive_request from_controller 15 ≡ some 0
unfolding check_packet_format load check_packet_crc
accepts = refl

wrong_destination_and_crc : check_packet_format corrupted_request to_controller 15 ≡ some 0x0C
unfolding check_packet_format load check_packet_crc
wrong_destination_and_crc = refl

wrong_size : check_packet_format keep_alive_request from_controller 14 ≡ some 0x20
unfolding check_packet_format load check_packet_crc
wrong_size = refl

too_short : check_packet_format keep_alive_request from_controller 10 ≡ some 0x20
unfolding check_packet_format load check_packet_crc
too_short = refl

check_packet_format_lem_example :
    check_packet_format corrupted_request to_controller 15
    ≡ some (if ltb 15 11 then packet_size_error else verdict corrupted_request 0x01 15)
check_packet_format_lem_example =
    check_packet_format_lem corrupted_request to_controller 15 corrupted_request-IsBytes
      (omega arith) (omega arith) (omega arith)

check_packet_format-ok_iff_example :
    (check_packet_format keep_alive_request from_controller 15 ≡ some packet_format_ok)
    ↔ IsFrame 0x02 1 keep_alive_request
check_packet_format-ok_iff_example =
    check_packet_format-ok_iff keep_alive_request from_controller 1 keep_alive_request-IsBytes
      (omega arith) (omega arith)
