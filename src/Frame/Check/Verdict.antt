-- ===== src/Frame/Check/Verdict.antt =====
-- What `checkPacketFormat` answers, without the order of its tests.
use communicate_core.Common.{
  ℕ, ◌+◌, ◌-◌, ◌≤◌, ◌<◌, ◌^◌, ◌≡◌, ◌≢◌, bit_and, List, some, arith, length, ◌==◌, if◌then◌else◌,
  u32, minus_one,
}
use communicate_core.Memory.{byte_at, peek, load_in_range, peek-one}
use communicate_core.Frame.Layout.{
  packet_stx, packet_etx, packet_etx_error, packet_size_error, MsgId,
}
use communicate_core.Frame.Crc.{frame_crc, check_packet_crc_lem}
use communicate_core.Frame.Check.Defs.{get_total_recv_size, check_packet_format}

-- The size that a frame's own length member stands for, as an `int`.
abbrev pub stated_size : List ℕ → ℕ
stated_size buf = u32 (14 + peek 4 buf 2)

-- The bits of a frame whose size is right: a bit for each member that is wrong.
abbrev pub member_errors : List ℕ → ℕ → ℕ → ℕ
member_errors buf dst size =
    (if peek 2 buf 0 == packet_stx then 0 else 0x01)
    + (if byte_at buf 7 == dst then 0 else 0x04)
    + (if frame_crc buf size == byte_at buf (size - 3) then 0 else 0x08)
    + (if peek 2 buf (size - 2) == packet_etx then 0 else 0x10)

abbrev pub verdict : List ℕ → ℕ → ℕ → ℕ
verdict buf dst size =
    if stated_size buf == size then member_errors buf dst size else packet_size_error

pub get_total_recv_size_lem :
    (buf : List ℕ) (size : ℕ)
    → 11 ≤ size
    → 11 ≤ length buf
    → peek 4 buf 2 < 2 ^ 32
    → get_total_recv_size buf size ≡ some (stated_size buf)
unfolding get_total_recv_size
get_total_recv_size_lem buf size a b c = rw (load_in_range 4 buf 2 (omega arith)) (ground arith)

-- A size below that of a header is refused before anything but the length is read.
pub check_packet_format_short :
    (buf : List ℕ) (msg_id : MsgId) (size : ℕ)
    → size < 11
    → 11 ≤ length buf
    → check_packet_format buf msg_id size ≡ some packet_size_error
unfolding check_packet_format
check_packet_format_short buf msg_id size a b =
    rw (load_in_range 4 buf 2 (omega arith)) (ground arith)

pub check_packet_format_sized :
    (buf : List ℕ) (msg_id : MsgId) (size : ℕ)
    → 11 ≤ size
    → size ≤ length buf
    → size < 2 ^ 31
    → peek 4 buf 2 < 2 ^ 32
    → check_packet_format buf msg_id size ≡ some (verdict buf msg_id.dst_id size)
unfolding check_packet_format
check_packet_format_sized buf msg_id size a b c d = ground (
  arith,
  load_in_range 4 buf 2 (omega arith),
  load_in_range 2 buf 0 (omega arith),
  load_in_range 1 buf 7 (omega arith),
  load_in_range 2 buf (size - 2) (omega arith),
  peek-one buf 7,
  get_total_recv_size_lem buf size a (omega arith) d,
  check_packet_crc_lem buf size (omega arith) c (omega arith),
)

pub member_errors_etx :
    (buf : List ℕ) (dst size : ℕ)
    → peek 2 buf (size - 2) ≢ packet_etx
    → bit_and (member_errors buf dst size) packet_etx_error ≡ packet_etx_error
member_errors_etx buf dst size h = ground arith

pub get_total_recv_size_short :
    (buf : List ℕ) (size : ℕ) → size < 11 → get_total_recv_size buf size ≡ some minus_one
unfolding get_total_recv_size
get_total_recv_size_short buf size h = ground arith
