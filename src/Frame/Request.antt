-- ===== src/Frame/Request.antt =====
-- What `makeRecvPacket` builds, a request as a controller would send it, against the check.
mod Tests
use communicate_core.Common.{
  ℕ, ◌≤◌, ◌<◌, ◌^◌, ◌≡◌, ◌≢◌, List, some, arith, length, bit_and, short_to_int,
}
use communicate_core.Memory.{byte_at, peek-two}
use communicate_core.Command.{get_send_cmd_size-le, get_recv_cmd_size-le, cmd_sizes_differ}
use communicate_core.Frame.Layout.{packet_etx_error, MsgId, frame_size}
use communicate_core.Frame.Crc.{byte_sum, crc_of_bounds, frame_crc}
use communicate_core.Frame.Spec.{IsFrame, HasHeader}
use communicate_core.Frame.Build.{make_recv_packet}
use communicate_core.Frame.Build.Writes.{fill, fill-written, header, written, written_tail}
use communicate_core.Frame.Check.{check_packet_format}
use communicate_core.Frame.Check.Verdict.{
  check_packet_format_sized, member_errors, member_errors_etx,
}
use communicate_core.Frame.Build.Outcome.{
  answer_size, request_size, written-HasHeader, written-IsFrame,
}

module _ (cmd : ℕ) (msg_id : MsgId) (buf : List ℕ) where
  pub make_recv_packet-written :
      frame_size (answer_size cmd) ≤ length buf
      → make_recv_packet cmd msg_id buf
        ≡ some (written msg_id.src_id msg_id.dst_id (request_size cmd) cmd buf (answer_size cmd))
  unfolding make_recv_packet fill
  make_recv_packet-written room =
      fill-written msg_id.src_id msg_id.dst_id (request_size cmd) cmd buf (answer_size cmd)
        (omega (arith, get_send_cmd_size-le (short_to_int cmd))) room

  pub make_recv_packet-HasHeader :
      cmd < 2 ^ 16
      → msg_id.src_id < 256
      → msg_id.dst_id < 256
      → frame_size (answer_size cmd) ≤ length buf
      → HasHeader msg_id.src_id msg_id.dst_id
          (request_size cmd)
          cmd
          (answer_size cmd)
          buf
          (written msg_id.src_id msg_id.dst_id (request_size cmd) cmd buf (answer_size cmd))
  make_recv_packet-HasHeader a b c room =
      written-HasHeader msg_id.src_id msg_id.dst_id (request_size cmd) cmd (answer_size cmd) buf
        room b c
        (omega
          (arith, get_send_cmd_size-le (short_to_int cmd), get_recv_cmd_size-le (short_to_int cmd)))
        a

  -- `makeRecvPacket` makes a frame for the destination of `msg_id`, around the payload in the
  -- buffer, for each command whose request is as long as its answer.
  pub make_recv_packet-IsFrame :
      cmd < 2 ^ 16
      → msg_id.src_id < 256
      → msg_id.dst_id < 256
      → frame_size (answer_size cmd) ≤ length buf
      → request_size cmd ≡ answer_size cmd
      → (packet : List ℕ) × (make_recv_packet cmd msg_id buf ≡ some packet)
        × HasHeader msg_id.src_id msg_id.dst_id (request_size cmd) cmd (answer_size cmd) buf packet
        × IsFrame msg_id.dst_id (answer_size cmd) packet
  make_recv_packet-IsFrame a b c room same =
      let h = make_recv_packet-HasHeader a b c room in
      (
        written msg_id.src_id msg_id.dst_id (request_size cmd) cmd buf (answer_size cmd),
        make_recv_packet-written room,
        h,
        written-IsFrame msg_id.src_id msg_id.dst_id (request_size cmd) cmd (answer_size cmd) buf
            room same h,
      )

  -- For a command whose answer is longer than its request (IBIT, RBIT and CBIT) `makeRecvPacket`
  -- puts the tail behind the place that the length it writes leads to: at that length the check
  -- finds a wrong ETX, whatever the payload.
  pub make_recv_packet_misplaced :
      cmd < 2 ^ 16
      → msg_id.src_id < 256
      → msg_id.dst_id < 256
      → frame_size (answer_size cmd) ≤ length buf
      → request_size cmd ≢ answer_size cmd
      → (packet : List ℕ) × (result : ℕ) × (make_recv_packet cmd msg_id buf ≡ some packet)
        × (check_packet_format packet msg_id (frame_size (request_size cmd)) ≡ some result)
        × (bit_and result packet_etx_error ≡ packet_etx_error)
  make_recv_packet_misplaced a b c room differ =
      let h = make_recv_packet-HasHeader a b c room in
      (
        packet,
        member_errors packet msg_id.dst_id 15,
        make_recv_packet-written room,
        rw short.0 (
            ground
              (arith, check_packet_format_sized packet msg_id 15, h.stated, h.same_length, short)),
        member_errors_etx packet msg_id.dst_id 15 (λ e. omega (
          arith,
          peek-two packet 13,
          crc_at_13,
          crc_of_bounds
              (byte_sum 7 (header msg_id.src_id msg_id.dst_id (request_size cmd) cmd buf) 6),
        )),
      )
    where
      packet : List ℕ
      packet = written msg_id.src_id msg_id.dst_id (request_size cmd) cmd buf (answer_size cmd)

      short : (request_size cmd ≡ 1) × (answer_size cmd ≡ 2)
      short = cmd_sizes_differ (short_to_int cmd) differ

      crc_at_13 :
          byte_at packet 13
          ≡ frame_crc (header msg_id.src_id msg_id.dst_id (request_size cmd) cmd buf) 16
      crc_at_13 =
          let tail =
            written_tail msg_id.src_id msg_id.dst_id (request_size cmd) cmd buf (answer_size cmd)
              room in
          ground (arith, tail, short.1)
