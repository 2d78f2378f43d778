-- ===== src/Tcp/Receive/Answers.antt =====
-- What `receiveThread` does with a frame of the stated size.
use communicate_core.Common.{
  ℕ, ◌+◌, ◌≤◌, ◌<◌, ◌≡◌, refl, ◌∙◌, List, [], ◌∷◌, ◌++◌, map, true, false, none, some, arith,
  length, length-replicate, replicate, short_to_int,
}
use communicate_core.Memory.{
  byte_at, peek, peek_cong, IsBytes, peek-lt, load_in_range, copied, copy_in_range, length-copied,
  copied_inside, copied-IsBytes, replicate-IsBytes,
}
use communicate_core.Command.{get_send_cmd_size, get_send_cmd_size-le}
use communicate_core.Frame.Layout.{ctrl_pc_id, my_tcp_id, frame_size}
use communicate_core.Frame.Spec.{IsFrame, HasHeader, IsFrame-cong}
use communicate_core.Frame.Build.{make_send_packet}
use communicate_core.Frame.Build.Outcome.{answer_size}
use communicate_core.Frame.RoundTrip.{make_send_packet-IsFrame, make_send_packet-IsBytes}
use communicate_core.Frame.Acceptance.{check_packet_format_lem}
use communicate_core.Handler.{Pointer}
use communicate_core.Handler.Effect.{reach, effect}
use communicate_core.Handler.Footprint.{effect-outside, effect-IsBytes}
use communicate_core.Handler.Dispatch.{
  expected_log, dispatch_command-effect, dispatch_command-overrun,
}
use communicate_core.Tcp.State.{buffer_size, ClientInfo, Effect}
use communicate_core.Tcp.Receive.Defs.{Round, tcp_msg_id, answer_frame}

-- The payload in the receive buffer, and the answer's part of a zeroed response of the command.
abbrev pub payload_of : List ℕ → Pointer
payload_of buffer = record { mem = buffer; at = 11 }

abbrev pub response_of : ℕ → Pointer
response_of cmd = record {
  mem = replicate (get_send_cmd_size (short_to_int cmd) + 11 + 3) 0;
  at = 11;
}

-- The mailbox of the client holds the answer of `cmd` to the received `buffer`.
pub record IsAnswered (client : ClientInfo) (cmd : ℕ) (buffer : List ℕ) (round : Round)
    : Type 0 where
  pub same_sock : round.client.client_sock ≡ client.client_sock
  pub same_flag : round.client.exit_flag ≡ client.exit_flag
  pub goes_on : round.stop ≡ false
  pub effects :
      round.effects ≡ map Effect.log (expected_log (short_to_int cmd) true) ++ (Effect.signal ∷ [])
  pub size : round.client.shared.data_size ≡ frame_size (answer_size cmd)
  pub whole : length round.client.shared.bytes ≡ buffer_size
  pub are_bytes : IsBytes round.client.shared.bytes
  pub frame : IsFrame ctrl_pc_id (answer_size cmd) round.client.shared.bytes
  pub from : byte_at round.client.shared.bytes 6 ≡ my_tcp_id
  pub command : peek 2 round.client.shared.bytes 9 ≡ cmd
  pub payload :
      (j : ℕ)
      → 11 ≤ j
      → j < 11 + answer_size cmd
      → byte_at round.client.shared.bytes j
        ≡ byte_at (effect (short_to_int cmd) (payload_of buffer) (response_of cmd)) j

module _ (client : ClientInfo) (buffer : List ℕ) (size : ℕ) (bytes : IsBytes buffer)
    (whole : length buffer ≡ buffer_size) (some_size : 11 ≤ size) (fits : size ≤ buffer_size) where
  abbrev cmd : ℕ
  cmd = peek 2 buffer 9

  abbrev outcome : List ℕ
  outcome = effect (short_to_int cmd) (payload_of buffer) (response_of cmd)

  length-outcome : length outcome ≡ answer_size cmd + 11 + 3
  length-outcome = omega (
    arith,
    (effect-outside (payload_of buffer) (response_of cmd) (short_to_int cmd)).0,
    length-replicate {A = ℕ} (answer_size cmd + 11 + 3) 0,
  )

  abbrev mailbox : List ℕ → List ℕ
  mailbox packet = copied (answer_size cmd + 11 + 3) (replicate buffer_size 0) packet

  abbrev answered : List ℕ → Round
  answered packet = record {
    client = record client {
      shared = record client.shared {
        bytes = mailbox packet;
        data_size = answer_size cmd + 11 + 3;
      };
    };
    effects = map Effect.log (expected_log (short_to_int cmd) true) ++ (Effect.signal ∷ []);
    stop = false;
  }

  room_in_response :
      reach (short_to_int cmd) ≤ answer_size cmd + 3
      → 11 + reach (short_to_int cmd) ≤ length (replicate {A = ℕ} (answer_size cmd + 11 + 3) 0)
  room_in_response room = omega (arith, length-replicate {A = ℕ} (answer_size cmd + 11 + 3) 0)

  mailbox_room : answer_size cmd + 11 + 3 ≤ length (replicate {A = ℕ} buffer_size 0)
  mailbox_room =
      omega (arith, length-replicate {A = ℕ} buffer_size 0, get_send_cmd_size-le (short_to_int cmd))

  answer_frame-answered :
      (packet : List ℕ)
      → reach (short_to_int cmd) ≤ answer_size cmd + 3
      → make_send_packet cmd tcp_msg_id outcome ≡ some packet
      → length packet ≡ answer_size cmd + 11 + 3
      → answer_frame client buffer size ≡ some (answered packet)
  unfolding answer_frame
  answer_frame-answered packet room built long =
      rw
        (
          check_packet_format_lem buffer tcp_msg_id size bytes (omega arith) (omega arith)
              (omega arith),
          load_in_range 2 buffer 9 (omega arith),
          dispatch_command-effect (payload_of buffer) (response_of cmd) true (omega arith)
              (short_to_int cmd) (room_in_response room),
          built,
          copy_in_range (answer_size cmd + 11 + 3) (replicate buffer_size 0) packet mailbox_room
              (omega arith),
        )
        refl

  answered-IsAnswered :
      (packet : List ℕ)
      → HasHeader my_tcp_id ctrl_pc_id (answer_size cmd) cmd (answer_size cmd) outcome packet
      → IsFrame ctrl_pc_id (answer_size cmd) packet
      → IsBytes packet
      → IsAnswered client cmd buffer (answered packet)
  answered-IsAnswered packet header frame bytes_too = record {
    same_sock = refl;
    same_flag = refl;
    goes_on = refl;
    effects = refl;
    size = omega arith;
    whole = full ∙ length-replicate {A = ℕ} buffer_size 0;
    are_bytes =
        copied-IsBytes (answer_size cmd + 11 + 3) (replicate buffer_size 0) packet mailbox_room long
          (replicate-IsBytes buffer_size) bytes_too;
    frame =
        IsFrame-cong ctrl_pc_id (answer_size cmd) packet (mailbox packet)
          (omega (arith, full, mailbox_room)) inside frame;
    from = inside 6 (omega arith) ∙ header.from;
    command =
        peek_cong 2 (mailbox packet) packet 9 (λ j p q. inside j (omega arith)) ∙ header.command;
    payload = λ j p q. inside j (omega arith) ∙ header.payload j p q;
  }
    where
      long : answer_size cmd + 11 + 3 ≤ length packet
      long = omega (arith, header.same_length, length-outcome)

      full : length (mailbox packet) ≡ length (replicate {A = ℕ} buffer_size 0)
      full =
          length-copied (answer_size cmd + 11 + 3) (replicate buffer_size 0) packet mailbox_room
            long

      inside :
          (j : ℕ) → j < frame_size (answer_size cmd) → byte_at (mailbox packet) j ≡ byte_at packet j
      inside j h =
          copied_inside (answer_size cmd + 11 + 3) (replicate buffer_size 0) packet j long
            mailbox_room (omega arith)

  pub answer_frame-IsAnswered :
      reach (short_to_int cmd) ≤ answer_size cmd + 3
      → (round : Round) × (answer_frame client buffer size ≡ some round)
        × IsAnswered client cmd buffer round
  answer_frame-IsAnswered room =
      let (packet, built, header, frame) =
        make_send_packet-IsFrame cmd tcp_msg_id outcome (peek-lt 2 buffer 9 bytes) (omega arith)
          (omega arith) (omega (arith, length-outcome)) in
      (
        answered packet,
        answer_frame-answered packet room built (omega (arith, header.same_length, length-outcome)),
        answered-IsAnswered packet header frame (
            make_send_packet-IsBytes cmd tcp_msg_id outcome packet (omega (arith, length-outcome))
              (effect-IsBytes (payload_of buffer) (response_of cmd)
                (replicate-IsBytes (answer_size cmd + 11 + 3)) (short_to_int cmd))
              built),
      )

  -- Without that room the dispatch writes outside of the response.
  pub answer_frame-overrun :
      answer_size cmd + 3 < reach (short_to_int cmd) → answer_frame client buffer size ≡ none
  unfolding answer_frame
  answer_frame-overrun tight =
      rw
        (
          check_packet_format_lem buffer tcp_msg_id size bytes (omega arith) (omega arith)
              (omega arith),
          load_in_range 2 buffer 9 (omega arith),
          dispatch_command-overrun (short_to_int cmd) (payload_of buffer) (response_of cmd) true
              (omega arith) (omega (arith, length-replicate {A = ℕ} (answer_size cmd + 11 + 3) 0))
              (omega (arith, length-replicate {A = ℕ} (answer_size cmd + 11 + 3) 0)),
        )
        refl
