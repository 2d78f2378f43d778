-- ===== src/Frame/Corruption/Tests.antt =====
-- A changed payload byte, and a frame with a negative length.
use communicate_core.Common.{◌≡◌, ◌-◌, ◌^◌, refl, some, arith}
use communicate_core.Memory.{peek}
use communicate_core.Frame.Layout.{packet_crc_error, packet_format_ok}
use communicate_core.Frame.Samples.{
  from_controller, keep_alive_request, keep_alive_request-IsBytes, corrupted_request,
  corrupted_request-IsBytes,
}
use communicate_core.Frame.Spec.{IsFrame}
use communicate_core.Frame.Check.{check_packet_format}
use communicate_core.Frame.Corruption.{
  SameBut, corrupted_byte_detected, negative_length_frame, negative_length_accepted,
}

keep_alive_request-IsFrame : IsFrame 0x02 1 keep_alive_request
unfolding peek
keep_alive_request-IsFrame = record {
  fits = omega arith;
  stx = refl;
  stated = refl;
  addressed = refl;
  crc = refl;
  etx = refl;
}

SameBut-payload : SameBut 11 keep_alive_request corrupted_request
SameBut-payload i h = ground arith

corrupted_byte_detected_example :
    check_packet_format corrupted_request from_controller 15 ≡ some packet_crc_error
corrupted_byte_detected_example =
    corrupted_byte_detected keep_alive_request corrupted_request from_controller 1 11
      keep_alive_request-IsBytes corrupted_request-IsBytes refl (omega arith)
      keep_alive_request-IsFrame SameBut-payload (omega arith) (omega arith) (omega arith)
      (omega arith)

negative_length_accepted_example :
    (check_packet_format (negative_length_frame 1 2) from_controller 11 ≡ some packet_format_ok)
    × (peek 4 (negative_length_frame 1 2) 2 ≡ 2 ^ 32 - 3)
    × (peek 2 (negative_length_frame 1 2) 9 ≡ 0xFFFF)
negative_length_accepted_example =
    negative_length_accepted 1 2 from_controller (omega arith) (omega arith) refl
