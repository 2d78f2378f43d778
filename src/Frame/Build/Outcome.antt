-- ===== src/Frame/Build/Outcome.antt =====
-- The buffer that both builders leave, against what a frame is.
use communicate_core.Common.{ℕ, ◌+◌, ◌≤◌, ◌<◌, ◌^◌, ◌≡◌, ◌⊎◌, List, arith, length, short_to_int}
use communicate_core.Memory.{byte_at, peek, peek-one}
use communicate_core.Command.{get_send_cmd_size, get_recv_cmd_size}
use communicate_core.Frame.Layout.{packet_stx, frame_size}
use communicate_core.Frame.Spec.{IsFrame, HasHeader}
use communicate_core.Frame.Build.Writes.{
  header, header_fields, header_outside, written, length-written, written_before, written_bytes,
  written_tail, frame_crc-written,
}

-- The sizes of the payload around which the builders work.
abbrev pub answer_size : ℕ → ℕ
answer_size cmd = get_send_cmd_size (short_to_int cmd)

abbrev pub request_size : ℕ → ℕ
request_size cmd = get_recv_cmd_size (short_to_int cmd)

module _ (src dst len cmd size : ℕ) (buf : List ℕ) where
  abbrev out : List ℕ
  out = written src dst len cmd buf size

  out_byte : (at : ℕ) → at + 1 ≤ 11 + size → byte_at out at ≡ peek 1 (header src dst len cmd buf) at
  out_byte at h = omega (arith, peek-one out at, written_before src dst len cmd buf 1 size at h)

  out_behind_header :
      (j : ℕ) → 11 ≤ j → (j < 11 + size) ⊎ (14 + size ≤ j) → byte_at out j ≡ byte_at buf j
  out_behind_header j p q =
      omega
        (arith, written_bytes src dst len cmd buf size j q, header_outside src dst len cmd buf j p)

  pub written-HasHeader :
      frame_size size ≤ length buf
      → src < 256
      → dst < 256
      → len < 2 ^ 32
      → cmd < 2 ^ 16
      → HasHeader src dst len cmd size buf out
  written-HasHeader room a b c d = record {
    same_length = length-written src dst len cmd buf size;
    stx = omega (arith, fields, written_before src dst len cmd buf 2 size 0);
    stated = omega (arith, fields, written_before src dst len cmd buf 4 size 2);
    from = omega (arith, fields, out_byte 6);
    to = omega (arith, fields, out_byte 7);
    sub_module = omega (arith, fields, out_byte 8);
    command = omega (arith, fields, written_before src dst len cmd buf 2 size 9);
    payload = λ j p q. out_behind_header j p (omega arith);
    behind = λ j p. out_behind_header j (omega arith) (omega arith);
  }
    where
      fields :
          (peek 2 (header src dst len cmd buf) 0 ≡ packet_stx)
          × (peek 4 (header src dst len cmd buf) 2 ≡ len)
          × (peek 1 (header src dst len cmd buf) 6 ≡ src)
          × (peek 1 (header src dst len cmd buf) 7 ≡ dst)
          × (peek 1 (header src dst len cmd buf) 8 ≡ 0)
          × (peek 2 (header src dst len cmd buf) 9 ≡ cmd)
      fields = header_fields src dst len cmd buf (omega arith) a b c d

  pub written-IsFrame :
      frame_size size ≤ length buf
      → len ≡ size
      → HasHeader src dst len cmd size buf out
      → IsFrame dst size out
  written-IsFrame room same h = record {
    fits = omega (arith, h.same_length);
    stx = h.stx;
    stated = omega (arith, h.stated);
    addressed = h.to;
    crc = omega (
      arith,
      written_tail src dst len cmd buf size room,
      frame_crc-written src dst len cmd buf size,
    );
    etx = omega (arith, written_tail src dst len cmd buf size room);
  }
