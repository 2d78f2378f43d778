-- ===== src/Tcp/Receive/Rounds.antt =====
-- A round of `receiveThread` for each thing that can arrive.
pub mod Tests
use native.Mathlib.Decide.{dec_lt}
use communicate_core.Common.{
  ℕ, ◌+◌, ◌≤◌, ◌<◌, ◌≡◌, ◌≢◌, ◌⊎◌, inl, inr, ◌↔◌, ◌∙◌, List, none, some, arith, length,
  length-replicate, replicate, short_to_int,
}
use communicate_core.Memory.{
  peek, IsBytes, peek-lt, copied, copy_in_range, length-copied, copied-IsBytes, replicate-IsBytes,
}
use communicate_core.Command.{get_send_cmd_size, get_send_cmd_size-le}
use communicate_core.Frame.Layout.{ctrl_pc_id, my_tcp_id, packet_format_ok}
use communicate_core.Frame.Build.Outcome.{answer_size}
use communicate_core.Frame.Check.{check_packet_format}
use communicate_core.Frame.Check.Verdict.{
  stated_size, get_total_recv_size_lem, get_total_recv_size_short,
}
use communicate_core.Frame.Acceptance.{check_packet_format-IsFrame}
use communicate_core.Handler.Effect.{reach}
use communicate_core.Tcp.State.{buffer_size, ClientInfo}
use communicate_core.Tcp.Receive.Defs.{message, Round, idle_round, answer_frame, receive_round}
use communicate_core.Tcp.Receive.Answers.{IsAnswered, answer_frame-IsAnswered, answer_frame-overrun}

-- The receive buffer: cleared, with the received bytes in front.
abbrev pub received : List ℕ → List ℕ
received bytes = copied (length bytes) (replicate buffer_size 0) bytes

-- The command of a received frame.
abbrev pub command_of : List ℕ → ℕ
command_of bytes = peek 2 (received bytes) 9

-- The commands whose handlers write further than the answer's size.
abbrev pub IsOverrunning : ℕ → Type 0
IsOverrunning cmd = (cmd ≡ 101) ⊎ (cmd ≡ 102) ⊎ (cmd ≡ 103)

reach_fits_iff : (id : ℕ) → (get_send_cmd_size id + 3 < reach id) ↔ IsOverrunning id
unfolding reach get_send_cmd_size
reach_fits_iff id = ground arith

module _ (client : ClientInfo) (bytes : List ℕ) (are_bytes : IsBytes bytes)
    (fits : length bytes ≤ buffer_size) where
  room : length bytes ≤ length (replicate {A = ℕ} buffer_size 0)
  room = omega (arith, length-replicate {A = ℕ} buffer_size 0)

  received-IsBytes : IsBytes (received bytes)
  received-IsBytes =
      copied-IsBytes (length bytes) (replicate buffer_size 0) bytes room (omega arith)
        (replicate-IsBytes buffer_size) are_bytes

  length-received : length (received bytes) ≡ buffer_size
  length-received =
      length-copied (length bytes) (replicate buffer_size 0) bytes room (omega arith)
      ∙ length-replicate {A = ℕ} buffer_size 0

  receive_round-matched :
      11 ≤ length bytes
      → stated_size (received bytes) ≡ length bytes
      → receive_round client (message bytes) ≡ answer_frame client (received bytes) (length bytes)
  unfolding receive_round
  receive_round-matched long same =
      rw
        (
          copy_in_range (length bytes) (replicate buffer_size 0) bytes room (omega arith),
          get_total_recv_size_lem (received bytes) (length bytes) long
              (omega (arith, length-received)) (peek-lt 4 (received bytes) 2 received-IsBytes),
          same,
        )
        (ground arith)

  receive_round-short :
      length bytes < 11 → receive_round client (message bytes) ≡ some (idle_round client)
  unfolding receive_round
  receive_round-short short =
      rw
        (
          copy_in_range (length bytes) (replicate buffer_size 0) bytes room (omega arith),
          get_total_recv_size_short (received bytes) (length bytes) short,
        )
        (ground arith)

  receive_round-differs :
      11 ≤ length bytes
      → stated_size (received bytes) ≢ length bytes
      → receive_round client (message bytes) ≡ some (idle_round client)
  unfolding receive_round
  receive_round-differs long differ =
      rw
        (
          copy_in_range (length bytes) (replicate buffer_size 0) bytes room (omega arith),
          get_total_recv_size_lem (received bytes) (length bytes) long
              (omega (arith, length-received)) (peek-lt 4 (received bytes) 2 received-IsBytes),
        )
        (ground arith)

  -- A message of at least a byte that is shorter than a header, or states another size than the
  -- received one, changes nothing, gets no answer, and does not end the thread.
  pub receive_round-unmatched :
      0 < length bytes
      → (length bytes < 11) ⊎ (stated_size (received bytes) ≢ length bytes)
      → receive_round client (message bytes) ≡ some (idle_round client)
  receive_round-unmatched some_bytes (inl short) = receive_round-short short
  receive_round-unmatched some_bytes (inr differ) = elim (dec_lt (length bytes) 11) [
    | yes short ↦ receive_round-short short
    | no long ↦ receive_round-differs (omega arith) differ
  ]

  module _ (long : 11 ≤ length bytes) (same : stated_size (received bytes) ≡ length bytes) where
    -- A message whose stated size is the received one is answered, whatever its other members are,
    -- unless its command is one of the three whose handlers write further than the answer. The
    -- mailbox then holds a frame for the controller with the command's answer, as long as the
    -- mailbox's size says, which the controller's check accepts; the log and the signal go out.
    pub receive_round-IsAnswered :
        ¬ IsOverrunning (short_to_int (command_of bytes))
        → (round : Round) × (receive_round client (message bytes) ≡ some round)
          × IsAnswered client (command_of bytes) (received bytes) round
          × (check_packet_format round.client.shared.bytes
                (record { src_id = my_tcp_id; dst_id = ctrl_pc_id })
                round.client.shared.data_size
              ≡ some packet_format_ok)
    receive_round-IsAnswered other =
        let (round, done, answered) =
          answer_frame-IsAnswered client (received bytes) (length bytes) received-IsBytes
            length-received long fits
            (ground (arith, reach_fits_iff (short_to_int (command_of bytes)))) in
        (
          round,
          receive_round-matched long same ∙ done,
          answered,
          rw answered.size (
              check_packet_format-IsFrame round.client.shared.bytes
                (record { src_id = my_tcp_id; dst_id = ctrl_pc_id })
                (answer_size (command_of bytes))
                (omega (arith, get_send_cmd_size-le (short_to_int (command_of bytes))))
                answered.frame),
        )

    -- A message whose stated size is the received one makes the code write outside of the response
    -- that it allocated exactly when its command is EXTERNAL2, EXTERNAL3 or EXTERNAL4 DATA.
    pub receive_round-fault_iff :
        (receive_round client (message bytes) ≡ none)
        ↔ IsOverrunning (short_to_int (command_of bytes))
    receive_round-fault_iff = (
      (λ fault.
          elim (dec_lt (answer_size (command_of bytes) + 3)
            (reach (short_to_int (command_of bytes)))) [
              | yes tight ↦ (reach_fits_iff (short_to_int (command_of bytes))).0 tight
              | no wide ↦
                  let (round, done, answered) =
                    answer_frame-IsAnswered client (received bytes) (length bytes) received-IsBytes
                      length-received long fits (omega arith) in
                  cc (fault, receive_round-matched long same, done)
            ]),
      (λ over.
          receive_round-matched long same
          ∙ answer_frame-overrun client (received bytes) (length bytes) received-IsBytes
              length-received long fits
              ((reach_fits_iff (short_to_int (command_of bytes))).1 over)),
    )
