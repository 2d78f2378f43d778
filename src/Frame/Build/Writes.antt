-- ===== src/Frame/Build/Writes.antt =====
-- What the sequence of stores of both builders leaves in the buffer, member by member.
use communicate_core.Common.{
  ℕ, ◌+◌, ◌-◌, ◌⊎◌, ap, ◌≤◌, ◌<◌, ◌^◌, ◌≡◌, List, Option, some, ◌>>=◌, arith, length,
}
use communicate_core.Memory.{
  byte_at, peek, poke, store, store_in_range, length-poke, byte_at-poke_outside, peek-poke_apart,
  peek-poke_self, peek-one, IsBytes, poke-IsBytes,
}
use communicate_core.Frame.Layout.{
  packet_stx, packet_etx, stx_at, length_at, src_id_at, dst_id_at, sub_module_at, cmd_at,
  sizeof_frame_header, frame_size,
}
use communicate_core.Frame.Crc.{
  calculate_packet_crc, calculate_packet_crc_lem, frame_crc, crc_of, crc_of_bounds, byte_sum,
  byte_sum_cong,
}

-- The stores of a builder, for the values that it puts into the header.
unfoldable pub fill : (src dst len cmd size : ℕ) → List ℕ → Option (List ℕ)
fill src dst len cmd size packet = do
  packet ← store 2 packet stx_at packet_stx
  packet ← store 1 packet src_id_at src
  packet ← store 1 packet dst_id_at dst
  packet ← store 1 packet sub_module_at 0x00
  packet ← store 4 packet length_at len
  packet ← store 2 packet cmd_at cmd
  crc ← calculate_packet_crc packet (frame_size size)
  packet ← store 1 packet (sizeof_frame_header + size) crc
  store 2 packet (sizeof_frame_header + size + 1) packet_etx

module _ (src dst len cmd : ℕ) (buf : List ℕ) where
  -- The buffer with the header written.
  pub header : List ℕ
  header =
      poke 2 (poke 4 (poke 1 (poke 1 (poke 1 (poke 2 buf 0 packet_stx) 6 src) 7 dst) 8 0) 2 len) 9
        cmd

  pub length-header : length header ≡ length buf
  unfolding header
  length-header = simp length-poke

  pub header_fields :
      11 ≤ length buf
      → src < 256
      → dst < 256
      → len < 2 ^ 32
      → cmd < 2 ^ 16
      → (peek 2 header 0 ≡ packet_stx)
        × (peek 4 header 2 ≡ len)
        × (peek 1 header 6 ≡ src)
        × (peek 1 header 7 ≡ dst)
        × (peek 1 header 8 ≡ 0)
        × (peek 2 header 9 ≡ cmd)
  unfolding header
  header_fields h a b c d = grind (arith, length-poke, peek-poke_apart, peek-poke_self)

  pub header_outside : (j : ℕ) → 11 ≤ j → byte_at header j ≡ byte_at buf j
  unfolding header
  header_outside j h = grind (arith, byte_at-poke_outside)

  -- The buffer with the tail written too.
  pub written : ℕ → List ℕ
  written size =
      poke 2 (poke 1 header (11 + size) (frame_crc header (frame_size size))) (11 + size + 1)
        packet_etx

  pub length-written : (size : ℕ) → length (written size) ≡ length buf
  unfolding written
  length-written size = simp (length-poke, length-header)

  pub fill-written :
      (size : ℕ)
      → size < 2 ^ 30
      → frame_size size ≤ length buf
      → fill src dst len cmd size buf ≡ some (written size)
  unfolding fill written header
  fill-written size w h = grind (arith, length-poke, store_in_range, calculate_packet_crc_lem)

  pub written_before :
      (m size at : ℕ) → at + m ≤ 11 + size → peek m (written size) at ≡ peek m header at
  unfolding written
  written_before m size at h = grind (arith, peek-poke_apart)

  pub written_bytes :
      (size j : ℕ) → (j < 11 + size) ⊎ (14 + size ≤ j) → byte_at (written size) j ≡ byte_at header j
  unfolding written
  written_bytes size j h = grind (arith, byte_at-poke_outside)

  pub frame_crc-written :
      (size : ℕ) → frame_crc (written size) (frame_size size) ≡ frame_crc header (frame_size size)
  frame_crc-written size =
      ap crc_of (byte_sum_cong _ _ _ 6 (λ j p q. written_bytes size j (omega arith)))

  pub written_tail :
      (size : ℕ)
      → frame_size size ≤ length buf
      → (byte_at (written size) (11 + size) ≡ frame_crc header (frame_size size))
        × (peek 2 (written size) (12 + size) ≡ packet_etx)
  unfolding written
  written_tail size h = grind (
    arith,
    length-poke,
    length-header,
    peek-poke_self,
    peek-poke_apart,
    peek-one (poke 1 header (11 + size) (frame_crc header (frame_size size))) (11 + size),
    peek-one
        (poke 2 (poke 1 header (11 + size) (frame_crc header (frame_size size))) (11 + size + 1)
          packet_etx)
        (11 + size),
    crc_of_bounds (byte_sum (frame_size size - 9) header 6),
  )

  pub written-IsBytes : (size : ℕ) → IsBytes buf → IsBytes (written size)
  unfolding written header
  written-IsBytes size b = poke-IsBytes 2 _ _ _ (
      poke-IsBytes 1 _ _ _ (
        poke-IsBytes 2 _ _ _ (
          poke-IsBytes 4 _ _ _ (
            poke-IsBytes 1 _ _ _
              (poke-IsBytes 1 _ _ _ (poke-IsBytes 1 _ _ _ (poke-IsBytes 2 _ _ _ b)))))))
