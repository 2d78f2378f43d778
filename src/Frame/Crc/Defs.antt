-- ===== src/Frame/Crc/Defs.antt =====
-- `calculatePacketCrc` and `checkPacketCrc` of frame-format.c. A `char` is its pattern of 8 bits.
use communicate_core.Common.{
  ℕ, zero, suc, ◌+◌, ◌-◌, ◌%◌, List, Option, some, ◌>>=◌, ◌==◌, if◌then◌else◌, sub_int, is_negative,
  int_to_size, minus_one,
}
use communicate_core.Memory.{load}
use communicate_core.Frame.Layout.{crc_start_point, excluding_crc_point}

-- The rounds of `for (i = from; i < to; i++)` over `int`, for a `from` that is not negative.
abbrev pub rounds : ℕ → ℕ → ℕ
rounds from to = if is_negative to then 0 else to - from

-- The loop at index `i` with `left` rounds to go.
unfoldable pub crc_loop : ℕ → List ℕ → ℕ → ℕ → Option ℕ
crc_loop zero buf i crc = some crc
crc_loop (suc left) buf i crc = do
  byte ← load 1 buf i
  crc_loop left buf (i + 1) ((crc + byte) % 256)

unfoldable pub calculate_packet_crc : List ℕ → ℕ → Option ℕ
unfolding crc_loop
calculate_packet_crc buf size = do
  crc ← crc_loop (rounds crc_start_point (sub_int size excluding_crc_point)) buf crc_start_point 0
  some (if crc == 0xFF then 0 else crc)

-- 0 or -1.
unfoldable pub check_packet_crc : List ℕ → ℕ → Option ℕ
unfolding calculate_packet_crc
check_packet_crc buf size = do
  crc ← calculate_packet_crc buf size
  stored ← load 1 buf (int_to_size (sub_int size excluding_crc_point))
  some (if crc == stored then 0 else minus_one)
