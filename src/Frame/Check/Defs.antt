-- ===== src/Frame/Check/Defs.antt =====
-- `getTotalRecvSize`, `checkPacketFormat` and `printPacketFormatError` of frame-format.c.
use communicate_core.Common.{
  ℕ, ◌+◌, List, [], ◌∷◌, ◌++◌, Bool, Option, some, String, ◌>>=◌, ◌==◌, ltb, not, if◌then◌else◌,
  u32, u64, bit_and, bit_or, minus_one, int_to_size,
}
use communicate_core.Memory.{load}
use communicate_core.Frame.Layout.{
  packet_stx, packet_etx, packet_format_ok, packet_stx_error, packet_src_id_error,
  packet_dst_id_error, packet_crc_error, packet_etx_error, packet_size_error, MsgId, stx_at,
  length_at, dst_id_at, sizeof_frame_header, sizeof_frame_tail,
}
use communicate_core.Frame.Crc.{check_packet_crc}

-- The sum is taken in `size_t` and returned as an `int`; the comparison is one of `size_t` too.
unfoldable pub get_total_recv_size : List ℕ → ℕ → Option ℕ
get_total_recv_size packet recv_size =
    if ltb (int_to_size recv_size) sizeof_frame_header then some minus_one else do
      len ← load 4 packet length_at
      some (u32 (u64 (sizeof_frame_header + int_to_size len + sizeof_frame_tail)))

-- `if (failed) uiResult |= flag;`
abbrev pub flag_if : Bool → ℕ → ℕ → ℕ
flag_if failed flag result = if failed then bit_or result flag else result

-- The source id is not checked: the test of it is commented out.
unfoldable pub check_packet_format : List ℕ → MsgId → ℕ → Option ℕ
unfolding get_total_recv_size
check_packet_format packet msg_id packet_size = do
  payload_size ← load 4 packet length_at
  let tail = u64 (sizeof_frame_header + int_to_size payload_size)
  total ← get_total_recv_size packet packet_size
  if not (total == packet_size) then some (bit_or packet_format_ok packet_size_error) else do
    stx ← load 2 packet stx_at
    let result = flag_if (not (stx == packet_stx)) packet_stx_error packet_format_ok
    dst ← load 1 packet dst_id_at
    let result = flag_if (not (dst == msg_id.dst_id)) packet_dst_id_error result
    crc ← check_packet_crc packet total
    let result = flag_if (not (crc == 0)) packet_crc_error result
    etx ← load 2 packet (tail + 1)
    some (flag_if (not (etx == packet_etx)) packet_etx_error result)

-- `if (uiResult & flag) printf(line);`
abbrev pub line_if : ℕ → ℕ → String → List String
line_if result flag line = if bit_and result flag == 0 then [] else line ∷ []

-- The printed lines, each without its line end.
unfoldable pub print_packet_format_error : ℕ → List String
print_packet_format_error result =
    ("패킷 포맷 오류:" ∷ [])
    ++ line_if result packet_size_error " - 패킷 크기 불일치"
    ++ line_if result packet_stx_error " - STX 오류 (시작 바이트)"
    ++ line_if result packet_src_id_error " - 송신 ID 오류"
    ++ line_if result packet_dst_id_error " - 수신 ID 오류"
    ++ line_if result packet_crc_error " - CRC 오류"
    ++ line_if result packet_etx_error " - ETX 오류 (종료 바이트)"
