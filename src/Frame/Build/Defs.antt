-- ===== src/Frame/Build/Defs.antt =====
-- `makeSendPacket` and `makeRecvPacket` of frame-format.c: the header and the tail are written
-- around a payload that stands in the buffer, the CRC from what the buffer then holds.
use communicate_core.Common.{ℕ, ◌+◌, List, Option, ◌>>=◌, short_to_int}
use communicate_core.Memory.{store}
use communicate_core.Command.{get_send_cmd_size, get_recv_cmd_size}
use communicate_core.Frame.Layout.{
  packet_stx, packet_etx, MsgId, stx_at, length_at, src_id_at, dst_id_at, sub_module_at, cmd_at,
  sizeof_frame_header, frame_size,
}
use communicate_core.Frame.Crc.{calculate_packet_crc}

unfoldable pub make_send_packet : ℕ → MsgId → List ℕ → Option (List ℕ)
make_send_packet cmd msg_id packet = do
  let cmd_size = get_send_cmd_size (short_to_int cmd)
  let tail = sizeof_frame_header + cmd_size
  packet ← store 2 packet stx_at packet_stx
  packet ← store 1 packet src_id_at msg_id.dst_id
  packet ← store 1 packet dst_id_at msg_id.src_id
  packet ← store 1 packet sub_module_at 0x00
  packet ← store 4 packet length_at (get_send_cmd_size (short_to_int cmd))
  packet ← store 2 packet cmd_at cmd
  crc ← calculate_packet_crc packet (frame_size cmd_size)
  packet ← store 1 packet tail crc
  store 2 packet (tail + 1) packet_etx

-- As in the code, the tail is placed by the size of the answer, and the length is that of the
-- request.
unfoldable pub make_recv_packet : ℕ → MsgId → List ℕ → Option (List ℕ)
make_recv_packet cmd msg_id packet = do
  let cmd_size = get_send_cmd_size (short_to_int cmd)
  let tail = sizeof_frame_header + cmd_size
  packet ← store 2 packet stx_at packet_stx
  packet ← store 1 packet src_id_at msg_id.src_id
  packet ← store 1 packet dst_id_at msg_id.dst_id
  packet ← store 1 packet sub_module_at 0x00
  packet ← store 4 packet length_at (get_recv_cmd_size (short_to_int cmd))
  packet ← store 2 packet cmd_at cmd
  crc ← calculate_packet_crc packet (frame_size cmd_size)
  packet ← store 1 packet tail crc
  store 2 packet (tail + 1) packet_etx
