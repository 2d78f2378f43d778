-- ===== src/Frame/Acceptance.antt =====
-- `checkPacketFormat` against what a frame is.
mod Tests
use communicate_core.Common.{
  ℕ, ◌-◌, ◌≤◌, ◌<◌, ◌^◌, ◌≡◌, ◌↔◌, List, some, arith, length, ltb, if◌then◌else◌,
}
use communicate_core.Memory.{IsBytes, peek-lt}
use communicate_core.Frame.Layout.{packet_size_error, packet_format_ok, MsgId, frame_size}
use communicate_core.Frame.Spec.{IsFrame}
use communicate_core.Frame.Check.{check_packet_format}
use communicate_core.Frame.Check.Verdict.{
  verdict, check_packet_format_short, check_packet_format_sized,
}

-- For bytes of which at least a header and the `size` received ones are in the buffer the check
-- stays in bounds, and its result is the size bit alone if `size` is below that of a header or
-- differs from the stated one, and otherwise the sum of a bit for each of STX, destination, CRC and
-- ETX that is wrong.
pub check_packet_format_lem :
    (buf : List ℕ) (msg_id : MsgId) (size : ℕ)
    → IsBytes buf
    → 11 ≤ length buf
    → size ≤ length buf
    → size < 2 ^ 31
    → check_packet_format buf msg_id size
      ≡ some (if ltb size 11 then packet_size_error else verdict buf msg_id.dst_id size)
check_packet_format_lem buf msg_id size bytes a b c = ground (
  arith,
  check_packet_format_short buf msg_id size,
  check_packet_format_sized buf msg_id size,
  peek-lt 4 buf 2 bytes,
)

pub check_packet_format-IsFrame :
    (buf : List ℕ) (msg_id : MsgId) (n : ℕ)
    → frame_size n < 2 ^ 31
    → IsFrame msg_id.dst_id n buf
    → check_packet_format buf msg_id (frame_size n) ≡ some packet_format_ok
check_packet_format-IsFrame buf msg_id n w f =
    ground (arith, check_packet_format_sized buf msg_id (frame_size n))

-- For a `size` of at least a frame with no payload, all of it in a buffer of bytes, the check
-- reports no error exactly when the buffer starts with a frame of that size for the expected
-- destination.
pub check_packet_format-ok_iff :
    (buf : List ℕ) (msg_id : MsgId) (n : ℕ)
    → IsBytes buf
    → frame_size n ≤ length buf
    → frame_size n < 2 ^ 31
    → (check_packet_format buf msg_id (frame_size n) ≡ some packet_format_ok)
      ↔ IsFrame msg_id.dst_id n buf
check_packet_format-ok_iff buf msg_id n bytes a b = (
  (λ e. ground (arith, check_packet_format_sized buf msg_id (frame_size n), peek-lt 4 buf 2 bytes)),
  check_packet_format-IsFrame buf msg_id n b,
)
