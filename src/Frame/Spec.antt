-- ===== src/Frame/Spec.antt =====
-- What the protocol calls a frame: the contents of a buffer, with no reference to the code that
-- builds or checks it.
use communicate_core.Common.{ℕ, ◌+◌, ◌<◌, ◌≤◌, ◌≡◌, List, arith, length}
use communicate_core.Memory.{byte_at, peek, peek_cong}
use communicate_core.Frame.Layout.{packet_stx, packet_etx, frame_size}
use communicate_core.Frame.Crc.{frame_crc, byte_sum_cong}

-- The buffer starts with a frame for `dst` around a payload of `n` bytes.
pub record IsFrame (dst n : ℕ) (buf : List ℕ) : Type 0 where
  pub fits : frame_size n ≤ length buf
  pub stx : peek 2 buf 0 ≡ packet_stx
  pub stated : peek 4 buf 2 ≡ n
  pub addressed : byte_at buf 7 ≡ dst
  pub crc : byte_at buf (11 + n) ≡ frame_crc buf (frame_size n)
  pub etx : peek 2 buf (12 + n) ≡ packet_etx

-- What a builder owes: a header with the given members, and no other byte of `buf` before the tail
-- or behind it touched.
pub record HasHeader (src dst len cmd size : ℕ) (buf out : List ℕ) : Type 0 where
  pub same_length : length out ≡ length buf
  pub stx : peek 2 out 0 ≡ packet_stx
  pub stated : peek 4 out 2 ≡ len
  pub from : byte_at out 6 ≡ src
  pub to : byte_at out 7 ≡ dst
  pub sub_module : byte_at out 8 ≡ 0
  pub command : peek 2 out 9 ≡ cmd
  pub payload : (j : ℕ) → 11 ≤ j → j < 11 + size → byte_at out j ≡ byte_at buf j
  pub behind : (j : ℕ) → frame_size size ≤ j → byte_at out j ≡ byte_at buf j

-- A frame is what its bytes say: a buffer with the same ones holds the same frame.
pub IsFrame-cong :
    (dst n : ℕ) (a b : List ℕ)
    → frame_size n ≤ length b
    → ((j : ℕ) → j < frame_size n → byte_at b j ≡ byte_at a j)
    → IsFrame dst n a
    → IsFrame dst n b
IsFrame-cong dst n a b room same f = record {
  fits = room;
  stx = omega (arith, f.stx, peek_cong 2 b a 0 (λ j p q. same j (omega arith)));
  stated = omega (arith, f.stated, peek_cong 4 b a 2 (λ j p q. same j (omega arith)));
  addressed = omega (arith, f.addressed, same 7 (omega arith));
  crc = ground (
    arith,
    f.crc,
    same (11 + n) (omega arith),
    byte_sum_cong (n + 5) b a 6 (λ j p q. same j (omega arith)),
  );
  etx = omega (arith, f.etx, peek_cong 2 b a (12 + n) (λ j p q. same j (omega arith)));
}
