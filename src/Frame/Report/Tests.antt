-- ===== src/Frame/Report/Tests.antt =====
-- A printed report.
use communicate_core.Common.{ℕ, ◌≡◌, refl, [], ◌∷◌, some, arith}
use communicate_core.Frame.Samples.{to_controller, corrupted_request, corrupted_request-IsBytes}
use communicate_core.Frame.Check.{check_packet_format, print_packet_format_error}
use communicate_core.Frame.Report.{complaints, print-check_packet_format}

two_complaints : print_packet_format_error 0x0C ≡ "패킷 포맷 오류:" ∷ " - 수신 ID 오류" ∷ " - CRC 오류" ∷ []
unfolding print_packet_format_error
two_complaints = refl

print-check_packet_format_example :
    (result : ℕ) × (check_packet_format corrupted_request to_controller 15 ≡ some result)
    × (print_packet_format_error result ≡ "패킷 포맷 오류:" ∷ complaints corrupted_request 0x01 15)
print-check_packet_format_example =
    print-check_packet_format corrupted_request to_controller 15 corrupted_request-IsBytes
      (omega arith) (omega arith) (omega arith)
