-- ===== src/Frame/Corruption.antt =====
-- What the one-byte CRC detects, and what the size test lets through.
mod Tests
use communicate_core.Common.{
  ℕ, zero, suc, ◌+◌, ◌-◌, ◌≤◌, ◌<◌, ◌^◌, ◌≡◌, ◌≢◌, refl, List, [], ◌∷◌, some, arith, length,
}
use native.Mathlib.Decide.{ℕ_discrete}
use communicate_core.Memory.{byte_at, peek, peek_cong, IsBytes}
use communicate_core.Frame.Layout.{MsgId, packet_crc_error, packet_format_ok, frame_size}
use communicate_core.Frame.Crc.{byte_sum, byte_sum_cong, crc_of, frame_crc}
use communicate_core.Frame.Spec.{IsFrame}
use communicate_core.Frame.Check.{check_packet_format}
use communicate_core.Frame.Check.Verdict.{check_packet_format_sized}

-- Two buffers that differ at most at `j`.
abbrev pub SameBut : ℕ → List ℕ → List ℕ → Type 0
SameBut j a b = (i : ℕ) → i ≢ j → byte_at a i ≡ byte_at b i

byte_sum-SameBut :
    (n : ℕ) (a b : List ℕ) (i j : ℕ)
    → SameBut j a b
    → i ≤ j
    → j < i + n
    → byte_sum n a i + byte_at b j ≡ byte_sum n b i + byte_at a j
byte_sum-SameBut zero a b i j h p q = absurd (omega arith)
byte_sum-SameBut (suc n) a b i j h p q = elim (ℕ_discrete i j) [
  | yes here ↦ rw here (omega (arith, byte_sum_cong n a b (j + 1) (λ k r _. h k (omega arith))))
  | no there ↦ omega (arith, h i there, byte_sum-SameBut n a b (i + 1) j h)
]

module _ (a b : List ℕ) (msg_id : MsgId) (n j : ℕ) where
  -- A change of one byte of the payload of a frame whose CRC is not 0 is reported, and as a CRC
  -- error alone.
  pub corrupted_byte_detected :
      IsBytes a
      → IsBytes b
      → length b ≡ length a
      → frame_size n < 2 ^ 31
      → IsFrame msg_id.dst_id n a
      → SameBut j a b
      → 11 ≤ j
      → j < 11 + n
      → byte_at a j ≢ byte_at b j
      → frame_crc a (frame_size n) ≢ 0
      → check_packet_format b msg_id (frame_size n) ≡ some packet_crc_error
  corrupted_byte_detected bytes_a bytes_b same_length w f same p q change nonzero = ground (
    arith,
    check_packet_format_sized b msg_id (frame_size n),
    peek_cong 2 a b 0 (λ k r t. same k (omega arith)),
    peek_cong 4 a b 2 (λ k r t. same k (omega arith)),
    peek_cong 2 a b (12 + n) (λ k r t. same k (omega arith)),
    same 7,
    same (11 + n),
    byte_sum-SameBut (n + 5) a b 6 j same,
    bytes_a j,
    bytes_b j,
  )

-- A frame of a header alone, with a negative length: its tail is read from the header.
abbrev pub negative_length_frame : ℕ → ℕ → List ℕ
negative_length_frame src dst =
    0xF0 ∷ 0xF0 ∷ 0xFD ∷ 0xFF ∷ 0xFF ∷ 0xFF ∷ src ∷ dst ∷ crc_of (src + dst) ∷ 0xFF ∷ 0xFF ∷ []

-- For each pair of ids there is a buffer of 11 bytes that states a payload of -3 bytes and passes
-- the check: the code does not refuse a negative length, and takes the command field for the ETX.
pub negative_length_accepted :
    (src dst : ℕ) (msg_id : MsgId)
    → src < 256
    → dst < 256
    → msg_id.dst_id ≡ dst
    → (check_packet_format (negative_length_frame src dst) msg_id 11 ≡ some packet_format_ok)
      × (peek 4 (negative_length_frame src dst) 2 ≡ 2 ^ 32 - 3)
      × (peek 2 (negative_length_frame src dst) 9 ≡ 0xFFFF)
unfolding peek
negative_length_accepted src dst msg_id a b e = (
  ground (arith, check_packet_format_sized (negative_length_frame src dst) msg_id 11),
  refl,
  refl,
)
