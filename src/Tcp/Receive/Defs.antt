-- ===== src/Tcp/Receive/Defs.antt =====
-- `receiveThread` of recv-thread.c, a round of its loop at a time. `malloc` succeeds.
use communicate_core.Common.{
  ℕ, ◌+◌, List, [], ◌∷◌, ◌++◌, map, Bool, true, false, Option, some, ◌>>=◌, if◌then◌else◌, length,
  replicate, lt_int, short_to_int,
}
use communicate_core.Memory.{load, copy_bytes}
use communicate_core.Command.{get_send_cmd_size}
use communicate_core.Frame.Layout.{
  MsgId, ctrl_pc_id, my_tcp_id, cmd_at, sizeof_frame_header, sizeof_frame_tail,
}
use communicate_core.Frame.Build.{make_send_packet}
use communicate_core.Frame.Check.{get_total_recv_size, check_packet_format}
use communicate_core.Handler.{Pointer, dispatch_command}
use communicate_core.Tcp.State.{buffer_size, ClientInfo, Effect}

-- The result of `recvMsgTimeout`, a function of the tcp-sock library: a size of 0, a negative one,
-- or the bytes, at least one, that it put into the buffer.
pub data Received : Type 0 where
  closed : Received
  failed : Received
  message : List ℕ → Received

-- A round of the loop, and whether it ends by `break`.
pub record Round : Type 0 where
  pub client : ClientInfo
  pub effects : List Effect
  pub stop : Bool

abbrev pub tcp_msg_id : MsgId
tcp_msg_id = record { src_id = ctrl_pc_id; dst_id = my_tcp_id }

abbrev pub idle_round : ClientInfo → Round
idle_round client = record { client = client; effects = []; stop = false }

-- The branch for a frame whose stated size is the received one. The status of the check is not used.
unfoldable pub answer_frame : ClientInfo → List ℕ → ℕ → Option Round
answer_frame client buffer recv_size = do
  status ← check_packet_format buffer tcp_msg_id recv_size
  cmd ← load 2 buffer cmd_at
  let payload : Pointer = record { mem = buffer; at = sizeof_frame_header }
  let response_size = get_send_cmd_size (short_to_int cmd) + sizeof_frame_header + sizeof_frame_tail
  let response : Pointer = record { mem = replicate response_size 0; at = sizeof_frame_header }
  done ← dispatch_command (short_to_int cmd) payload response true
  packet ← make_send_packet cmd tcp_msg_id done.mem
  bytes ← copy_bytes response_size (replicate buffer_size 0) packet
  some (record {
    client = record client {
      shared = record client.shared { bytes = bytes; data_size = response_size };
    };
    effects = map Effect.log done.log ++ (Effect.signal ∷ []);
    stop = false;
  })

unfoldable pub receive_round : ClientInfo → Received → Option Round
receive_round client Received.closed = some (record {
  client = record client { client_sock = 0 };
  effects = Effect.disconnect client.client_sock ∷ [];
  stop = true;
})
receive_round client Received.failed = some (idle_round client)
receive_round client (Received.message bytes) = do
  buffer ← copy_bytes (length bytes) (replicate buffer_size 0) bytes
  total ← get_total_recv_size buffer (length bytes)
  if lt_int (length bytes) total
      then some (idle_round client)
      else if lt_int total (length bytes)
      then some (idle_round client)
      else answer_frame client buffer (length bytes)

-- The loop over what arrives, until a round stops it.
unfoldable pub receive_loop : ClientInfo → List Received → Option Round
receive_loop client [] = some (idle_round client)
receive_loop client (r ∷ rs) = do
  round ← receive_round client r
  let rest = do
    last ← receive_loop round.client rs
    some (record last { effects = round.effects ++ last.effects })
  if round.stop then some round else rest

-- The whole thread. Without the peer's address it ends at once; behind the loop it sets the flag.
unfoldable pub receive_thread : ClientInfo → (has_peer : Bool) → List Received → Option Round
receive_thread client false events = some (record { client = client; effects = []; stop = true })
receive_thread client true events = do
  last ← receive_loop client events
  let ended = record last { client = record last.client { exit_flag = true } }
  some (if last.stop then ended else last)
