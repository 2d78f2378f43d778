-- ===== src/Frame/RoundTrip.antt =====
-- What `makeSendPacket` builds against the check.
mod Tests
use mathlib.Core.Option.{some-injective}
use mathlib.Core.Path.{subst}
use communicate_core.Common.{
  ℕ, ◌≤◌, ◌<◌, ◌^◌, ◌≡◌, refl, sym, ◌∙◌, List, some, arith, length, short_to_int,
}
use communicate_core.Memory.{IsBytes}
use communicate_core.Command.{get_send_cmd_size-le}
use communicate_core.Frame.Layout.{packet_format_ok, MsgId, frame_size}
use communicate_core.Frame.Spec.{IsFrame, HasHeader}
use communicate_core.Frame.Build.{make_send_packet}
use communicate_core.Frame.Build.Writes.{fill, fill-written, header, written, written-IsBytes}
use communicate_core.Frame.Check.{check_packet_format}
use communicate_core.Frame.Acceptance.{check_packet_format-IsFrame}
use communicate_core.Frame.Build.Outcome.{answer_size}
use communicate_core.Frame.Build.Outcome.{written-HasHeader, written-IsFrame}

module _ (cmd : ℕ) (msg_id : MsgId) (buf : List ℕ) where
  -- In a buffer with room for the answer, `makeSendPacket` succeeds for every command, also one
  -- that is not known. It answers the sender of `msg_id`: the two ids change places. The result is a
  -- frame around the payload that stood in the buffer, and nothing behind the frame is touched.
  pub make_send_packet-IsFrame :
      cmd < 2 ^ 16
      → msg_id.src_id < 256
      → msg_id.dst_id < 256
      → frame_size (answer_size cmd) ≤ length buf
      → (packet : List ℕ) × (make_send_packet cmd msg_id buf ≡ some packet)
        × HasHeader msg_id.dst_id msg_id.src_id (answer_size cmd) cmd (answer_size cmd) buf packet
        × IsFrame msg_id.src_id (answer_size cmd) packet
  unfolding make_send_packet fill
  make_send_packet-IsFrame a b c room =
      let h =
        written-HasHeader msg_id.dst_id msg_id.src_id (answer_size cmd) cmd (answer_size cmd) buf
          room c b (omega (arith, get_send_cmd_size-le (short_to_int cmd))) a in
      (
        written msg_id.dst_id msg_id.src_id (answer_size cmd) cmd buf (answer_size cmd),
        fill-written msg_id.dst_id msg_id.src_id (answer_size cmd) cmd buf (answer_size cmd)
            (omega (arith, get_send_cmd_size-le (short_to_int cmd))) room,
        h,
        written-IsFrame msg_id.dst_id msg_id.src_id (answer_size cmd) cmd (answer_size cmd) buf room
            refl h,
      )

  pub make_send_packet-IsBytes :
      (packet : List ℕ)
      → frame_size (answer_size cmd) ≤ length buf
      → IsBytes buf
      → make_send_packet cmd msg_id buf ≡ some packet
      → IsBytes packet
  unfolding make_send_packet fill
  make_send_packet-IsBytes packet room bytes built =
      subst IsBytes
        (some-injective _ packet (
          sym (
            fill-written msg_id.dst_id msg_id.src_id (answer_size cmd) cmd buf (answer_size cmd)
              (omega (arith, get_send_cmd_size-le (short_to_int cmd))) room)
          ∙ built))
        (written-IsBytes msg_id.dst_id msg_id.src_id (answer_size cmd) cmd buf (answer_size cmd)
          bytes)

  -- What `makeSendPacket` builds passes `checkPacketFormat` at the sender of the request.
  pub make_send_packet-check :
      (receiver : MsgId)
      → receiver.dst_id ≡ msg_id.src_id
      → cmd < 2 ^ 16
      → msg_id.src_id < 256
      → msg_id.dst_id < 256
      → frame_size (answer_size cmd) ≤ length buf
      → (packet : List ℕ) × (make_send_packet cmd msg_id buf ≡ some packet)
        × (check_packet_format packet receiver (frame_size (answer_size cmd))
            ≡ some packet_format_ok)
  make_send_packet-check receiver same a b c room =
      let (packet, built, header, frame) = make_send_packet-IsFrame a b c room in
      (
        packet,
        built,
        check_packet_format-IsFrame packet receiver (answer_size cmd)
            (omega (arith, get_send_cmd_size-le (short_to_int cmd))) (rw same frame),
      )
