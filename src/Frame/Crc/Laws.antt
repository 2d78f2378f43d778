-- ===== src/Frame/Crc/Laws.antt =====
-- The CRC as a sum of bytes, with no loop.
use communicate_core.Common.{
  ℕ, zero, suc, ◌+◌, ◌-◌, ◌%◌, ◌^◌, ◌≤◌, ◌<◌, ◌≡◌, refl, List, some, arith, length, ◌==◌,
  if◌then◌else◌, minus_one, sub_int, int_to_size,
}
use communicate_core.Memory.{byte_at, peek, load_in_range, peek-one}
use communicate_core.Frame.Layout.{crc_start_point, excluding_crc_point}
use communicate_core.Frame.Crc.Defs.{rounds, crc_loop, calculate_packet_crc, check_packet_crc}

-- The sum of `n` bytes from `i`.
abbrev pub byte_sum : ℕ → List ℕ → ℕ → ℕ
byte_sum zero buf i = 0
byte_sum (suc n) buf i = byte_at buf i + byte_sum n buf (i + 1)

-- A sum as a CRC: its low byte, where 0xFF is replaced by 0.
abbrev pub crc_of : ℕ → ℕ
crc_of sum = if sum % 256 == 0xFF then 0 else sum % 256

-- The CRC of a frame of `size` bytes.
abbrev pub frame_crc : List ℕ → ℕ → ℕ
frame_crc buf size = crc_of (byte_sum (size - 9) buf 6)

pub byte_sum_cong :
    (n : ℕ) (a b : List ℕ) (i : ℕ)
    → ((j : ℕ) → i ≤ j → j < i + n → byte_at a j ≡ byte_at b j)
    → byte_sum n a i ≡ byte_sum n b i
byte_sum_cong zero a b i h = refl
byte_sum_cong (suc n) a b i h = omega (
  arith,
  h i (omega arith) (omega arith),
  byte_sum_cong n a b (i + 1) (λ j p q. h j (omega arith) (omega arith)),
)

index_lem :
    (size : ℕ)
    → 9 ≤ size
    → size < 2 ^ 31
    → int_to_size (sub_int size excluding_crc_point) ≡ size - 3
index_lem size a b = ground arith

crc_loop_lem :
    (n : ℕ) (buf : List ℕ) (i crc : ℕ)
    → i + n ≤ length buf
    → crc < 256
    → crc_loop n buf i crc ≡ some ((crc + byte_sum n buf i) % 256)
unfolding crc_loop
crc_loop_lem zero buf i crc h w = ground arith
crc_loop_lem (suc n) buf i crc h w = rw (load_in_range 1 buf i (omega arith)) (
    ground (
      arith,
      peek-one buf i,
      crc_loop_lem n buf (i + 1) ((crc + peek 1 buf i) % 256) (omega arith) (omega arith),
    ))

rounds_lem :
    (size : ℕ)
    → 9 ≤ size
    → size < 2 ^ 31
    → rounds crc_start_point (sub_int size excluding_crc_point) ≡ size - 9
rounds_lem size a b = ground arith

pub calculate_packet_crc_lem :
    (buf : List ℕ) (size : ℕ)
    → 9 ≤ size
    → size < 2 ^ 31
    → size ≤ length buf + 3
    → calculate_packet_crc buf size ≡ some (frame_crc buf size)
unfolding calculate_packet_crc
calculate_packet_crc_lem buf size a b c =
    rw (rounds_lem size a b, crc_loop_lem (size - 9) buf 6 0 (omega arith) (omega arith))
      (ground arith)

pub check_packet_crc_lem :
    (buf : List ℕ) (size : ℕ)
    → 9 ≤ size
    → size < 2 ^ 31
    → size ≤ length buf + 2
    → check_packet_crc buf size
      ≡ some (if frame_crc buf size == byte_at buf (size - 3) then 0 else minus_one)
unfolding check_packet_crc
check_packet_crc_lem buf size a b c =
    rw
      (
        calculate_packet_crc_lem buf size a b (omega arith),
        index_lem size a b,
        load_in_range 1 buf (size - 3) (omega arith),
        peek-one buf (size - 3),
      )
      refl

-- The CRC is a byte, and never 0xFF.
pub crc_of_bounds : (sum : ℕ) → crc_of sum < 0xFF
crc_of_bounds sum = ground arith
