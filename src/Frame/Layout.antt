-- ===== src/Frame/Layout.antt =====
-- The constants and packed structs of frame-format.h. A struct is given by the offsets of its
-- members from its start, in bytes.
use communicate_core.Common.{ℕ, ◌+◌}

abbrev pub crc_start_point : ℕ
crc_start_point = 6

abbrev pub excluding_crc_point : ℕ
excluding_crc_point = 3

abbrev pub packet_stx : ℕ
packet_stx = 0xF0F0

abbrev pub packet_etx : ℕ
packet_etx = 0xFFFF

-- The ids of the two ends of a link.
abbrev pub no_id : ℕ
no_id = 0x00

abbrev pub ctrl_pc_id : ℕ
ctrl_pc_id = 0x01

abbrev pub my_tcp_id : ℕ
my_tcp_id = 0x02

abbrev pub uds2_id : ℕ
uds2_id = 0x10

abbrev pub extern1_id : ℕ
extern1_id = 0x21

abbrev pub extern2_id : ℕ
extern2_id = 0x22

abbrev pub extern3_id : ℕ
extern3_id = 0x23

abbrev pub extern4_id : ℕ
extern4_id = 0x24

-- `PACKET_FORMAT_STATUS`: one bit for each kind of error.
abbrev pub packet_format_ok : ℕ
packet_format_ok = 0x00

abbrev pub packet_stx_error : ℕ
packet_stx_error = 0x01

abbrev pub packet_src_id_error : ℕ
packet_src_id_error = 0x02

abbrev pub packet_dst_id_error : ℕ
packet_dst_id_error = 0x04

abbrev pub packet_crc_error : ℕ
packet_crc_error = 0x08

abbrev pub packet_etx_error : ℕ
packet_etx_error = 0x10

abbrev pub packet_size_error : ℕ
packet_size_error = 0x20

-- `MSG_ID`
pub record MsgId : Type 0 where
  pub src_id : ℕ
  pub dst_id : ℕ

-- `FRAME_HEADER`: unStx, iLength, stMsgId, chSubModule and nCmd.
abbrev pub stx_at : ℕ
stx_at = 0

abbrev pub length_at : ℕ
length_at = 2

abbrev pub src_id_at : ℕ
src_id_at = 6

abbrev pub dst_id_at : ℕ
dst_id_at = 7

abbrev pub sub_module_at : ℕ
sub_module_at = 8

abbrev pub cmd_at : ℕ
cmd_at = 9

abbrev pub sizeof_frame_header : ℕ
sizeof_frame_header = 11

-- `FRAME_TAIL`: chCrc, and unEtx behind it.
abbrev pub sizeof_frame_tail : ℕ
sizeof_frame_tail = 3

-- The frame around a payload of `n` bytes.
abbrev pub frame_size : ℕ → ℕ
frame_size n = sizeof_frame_header + n + sizeof_frame_tail
