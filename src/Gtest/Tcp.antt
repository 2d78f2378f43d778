-- ===== src/Gtest/Tcp.antt =====
-- gtest-tcp-recv-send.cc: a controller that sends a command and looks at the answer. What `recv`
-- gives the controller is one message of the server.
pub mod Fixture
use communicate_core.Common.{
  ◌>>=◌, ℕ, ◌+◌, ◌≡◌, refl, List, [], ◌∷◌, ◌++◌, Bool, true, ◌&&◌, Option, some, ◌==◌, arith,
  length, take, replicate,
}
use communicate_core.Memory.{byte_at, peek, load, store, poke, IsBytes-of_all}
use communicate_core.Command.{get_send_cmd_size, get_recv_cmd_size}
use communicate_core.Command.Ids.{
  keep_alive_id, ibit_id, sizeof_rcv_keep_alive, sizeof_snd_keep_alive, sizeof_rcv_bit,
  sizeof_snd_bit,
}
use communicate_core.Frame.Layout.{MsgId, sizeof_frame_header, frame_size}
use communicate_core.Frame.Build.{make_recv_packet}
use communicate_core.Frame.Crc.{calculate_packet_crc}
use communicate_core.Handler.Effect.{effect}
use communicate_core.Tcp.State.{Effect}
use communicate_core.Tcp.Send.{working, waiting}
use communicate_core.Tcp.Session.{Session, Reach}
use communicate_core.Tcp.Session.Mailbox.{HoldsAnswer}
use communicate_core.Tcp.Session.Answers.{IsReplyTo, request_answered}

-- `stMsgId`
abbrev pub controller_msg_id : MsgId
controller_msg_id = record { src_id = 0x01; dst_id = 0x02 }

-- What a test sends: the first byte of the payload is 1, the frame is made around it in `achPacket`,
-- and `iSendSize` bytes of it are sent.
unfoldable pub controller_request : ℕ → ℕ → Option (List ℕ)
controller_request cmd payload_size = do
  packet ← store 1 (replicate 128 0) sizeof_frame_header 0x01
  packet ← make_recv_packet cmd controller_msg_id packet
  some (take (frame_size payload_size) packet)

-- The expectations of a test of what it received.
unfoldable pub keep_alive_expects : List ℕ → Bool
keep_alive_expects response =
    length response == frame_size sizeof_snd_keep_alive
    && byte_at response sizeof_frame_header == 0x01

unfoldable pub ibit_expects : List ℕ → Bool
ibit_expects response =
    length response == frame_size sizeof_snd_bit
    && byte_at response sizeof_frame_header == 0x01
    && byte_at response (sizeof_frame_header + 1) == 0x01

abbrev keep_alive_bytes : List ℕ
keep_alive_bytes = 0xF0 ∷ 0xF0 ∷ 1 ∷ 0 ∷ 0 ∷ 0 ∷ 1 ∷ 2 ∷ 0 ∷ 0 ∷ 0 ∷ 1 ∷ 4 ∷ 0xFF ∷ 0xFF ∷ []

keep_alive_sent : controller_request keep_alive_id sizeof_rcv_keep_alive ≡ some keep_alive_bytes
unfolding controller_request store make_recv_packet load get_send_cmd_size get_recv_cmd_size
    calculate_packet_crc
keep_alive_sent = refl

-- The tail stands one byte behind the sent ones' end.
abbrev ibit_bytes : List ℕ
ibit_bytes = 0xF0 ∷ 0xF0 ∷ 1 ∷ 0 ∷ 0 ∷ 0 ∷ 1 ∷ 2 ∷ 0 ∷ 1 ∷ 0 ∷ 1 ∷ 0 ∷ 5 ∷ 0xFF ∷ []

ibit_sent : controller_request ibit_id sizeof_rcv_bit ≡ some ibit_bytes
unfolding controller_request store make_recv_packet load get_send_cmd_size get_recv_cmd_size
    calculate_packet_crc
ibit_sent = refl

-- What the handlers answer to them.
keep_alive_reply :
    (reply : List ℕ) → IsReplyTo keep_alive_bytes reply → keep_alive_expects reply ≡ true
unfolding peek keep_alive_expects effect poke get_send_cmd_size
keep_alive_reply reply is = ground (arith, is.size, is.payload 11 (omega arith) (omega arith))

ibit_reply : (reply : List ℕ) → IsReplyTo ibit_bytes reply → ibit_expects reply ≡ true
unfolding peek ibit_expects effect poke get_send_cmd_size
ibit_reply reply is = ground (
  arith,
  is.size,
  is.payload 11 (omega arith) (omega arith),
  is.payload 12 (omega arith) (omega arith),
)

-- From a session in which the receiving thread receives and the sending thread waits, what a test
-- sent arrives, and if the sending thread is then woken, the last thing that goes out is one message
-- of which the test's expectations hold, and the receiving thread works on.
pub record Passes (s : Session) (request : Option (List ℕ)) (expects : List ℕ → Bool) : Type 0 where
  pub bytes : List ℕ
  pub asked : request ≡ some bytes
  pub after : Session
  pub reached : Reach s after
  pub before : List Effect
  pub reply : List ℕ
  pub sent : after.effects ≡ before ++ (Effect.send s.client.client_sock reply ∷ [])
  pub holds : expects reply ≡ true
  pub receives_on : after.receiver ≡ working

-- A session in which the receiving thread receives and the sending thread waits, with a mailbox that
-- is empty or holds an answer, passes the keep-alive test and the IBIT test.
pub controller_tests_pass :
    (s : Session)
    → HoldsAnswer s.client.shared
    → s.receiver ≡ working
    → s.sender ≡ waiting
    → Passes s (controller_request keep_alive_id sizeof_rcv_keep_alive) keep_alive_expects
      × Passes s (controller_request ibit_id sizeof_rcv_bit) ibit_expects
unfolding peek
controller_tests_pass s mailbox receives waits =
    let (t, reply, reached, is, effects, on) =
      request_answered s keep_alive_bytes mailbox receives waits
        (IsBytes-of_all keep_alive_bytes (omega arith)) (omega arith) (omega arith) refl
        (omega arith) in
    let (u, other, also_reached, is_other, also_effects, also_on) =
      request_answered s ibit_bytes mailbox receives waits (IsBytes-of_all ibit_bytes (omega arith))
        (omega arith) (omega arith) refl (omega arith) in
    (
      record {
        bytes = keep_alive_bytes;
        asked = keep_alive_sent;
        after = t;
        reached = reached;
        before = _;
        reply = reply;
        sent = effects;
        holds = keep_alive_reply reply is;
        receives_on = on;
      },
      record {
        bytes = ibit_bytes;
        asked = ibit_sent;
        after = u;
        reached = also_reached;
        before = _;
        reply = other;
        sent = also_effects;
        holds = ibit_reply other is_other;
        receives_on = also_on;
      },
    )
