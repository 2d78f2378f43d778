-- ===== src/Frame/Report.antt =====
-- The lines of `printPacketFormatError` against what `checkPacketFormat` found.
mod Tests
use communicate_core.Common.{
  ℕ, ◌-◌, ◌≤◌, ◌<◌, ◌^◌, ◌≡◌, Bool, List, [], ◌∷◌, ◌++◌, String, some, arith, length, not, ◌==◌,
  if◌then◌else◌,
}
use communicate_core.Memory.{byte_at, peek, IsBytes}
use communicate_core.Frame.Layout.{packet_stx, packet_etx, MsgId}
use communicate_core.Frame.Crc.{frame_crc}
use communicate_core.Frame.Check.{check_packet_format, print_packet_format_error}
use communicate_core.Frame.Check.Verdict.{stated_size, verdict}
use communicate_core.Frame.Acceptance.{check_packet_format_lem}

abbrev line_when : Bool → String → List String
line_when wrong line = if wrong then line ∷ [] else []

-- A line for each thing that is wrong with a received frame; a wrong size hides the rest.
abbrev pub complaints : List ℕ → ℕ → ℕ → List String
complaints buf dst size =
    if stated_size buf == size
    then line_when (not (peek 2 buf 0 == packet_stx)) " - STX 오류 (시작 바이트)"
      ++ line_when (not (byte_at buf 7 == dst)) " - 수신 ID 오류"
      ++ line_when (not (frame_crc buf size == byte_at buf (size - 3))) " - CRC 오류"
      ++ line_when (not (peek 2 buf (size - 2) == packet_etx)) " - ETX 오류 (종료 바이트)"
    else " - 패킷 크기 불일치" ∷ []

print-verdict :
    (buf : List ℕ) (dst size : ℕ)
    → print_packet_format_error (verdict buf dst size) ≡ "패킷 포맷 오류:" ∷ complaints buf dst size
unfolding print_packet_format_error
print-verdict buf dst size = ground arith

-- For a received frame of at least a header, all of it in a buffer of bytes, the printed report of
-- the check's result has its title and then exactly one line for each of size, STX, destination, CRC
-- and ETX that is wrong, where a wrong size is the only line; the line on the source id is never
-- printed.
pub print-check_packet_format :
    (buf : List ℕ) (msg_id : MsgId) (size : ℕ)
    → IsBytes buf
    → 11 ≤ size
    → size ≤ length buf
    → size < 2 ^ 31
    → (result : ℕ) × (check_packet_format buf msg_id size ≡ some result)
      × (print_packet_format_error result ≡ "패킷 포맷 오류:" ∷ complaints buf msg_id.dst_id size)
print-check_packet_format buf msg_id size bytes a b c = (
  verdict buf msg_id.dst_id size,
  ground (arith, check_packet_format_lem buf msg_id size bytes),
  print-verdict buf msg_id.dst_id size,
)
