-- ===== src/Tcp/Receive/Rounds/Tests.antt =====
-- Rounds of the receiving thread for a keep-alive, for a command that overruns, and for noise.
use communicate_core.Common.{
  ℕ, ◌≡◌, ◌↔◌, refl, List, [], ◌∷◌, false, none, some, arith, replicate, short_to_int,
}
use communicate_core.Memory.{peek, IsBytes, IsBytes-of_all}
use communicate_core.Frame.Layout.{ctrl_pc_id, my_tcp_id, packet_format_ok}
use communicate_core.Frame.Samples.{keep_alive_request, keep_alive_request-IsBytes}
use communicate_core.Frame.Check.{check_packet_format}
use communicate_core.Tcp.State.{ClientInfo}
use communicate_core.Tcp.Receive.Defs.{message, Round, receive_round}
use communicate_core.Tcp.Receive.Answers.{IsAnswered}
use communicate_core.Tcp.Receive.Rounds.{
  received, command_of, IsOverrunning, receive_round-IsAnswered, receive_round-fault_iff,
}

abbrev pub client : ClientInfo
client = record {
  client_sock = 5;
  exit_flag = false;
  shared = record { bytes = replicate 1024 0; data_size = 0; cmd = 0 };
}

-- EXTERNAL4 DATA with no payload: the code does not compare the stated length with the command's.
abbrev extern4_request : List ℕ
extern4_request = 0xF0 ∷ 0xF0 ∷ 0 ∷ 0 ∷ 0 ∷ 0 ∷ 1 ∷ 2 ∷ 0 ∷ 103 ∷ 0 ∷ 106 ∷ 0xFF ∷ 0xFF ∷ []

extern4_request-IsBytes : IsBytes extern4_request
extern4_request-IsBytes = IsBytes-of_all extern4_request (omega arith)

receive_round-IsAnswered_example :
    (round : Round) × (receive_round client (message keep_alive_request) ≡ some round)
    × IsAnswered client (command_of keep_alive_request) (received keep_alive_request) round
    × (check_packet_format round.client.shared.bytes
          (record { src_id = my_tcp_id; dst_id = ctrl_pc_id })
          round.client.shared.data_size
        ≡ some packet_format_ok)
unfolding peek
receive_round-IsAnswered_example =
    receive_round-IsAnswered client keep_alive_request keep_alive_request-IsBytes (omega arith)
      (omega arith) refl (omega arith)

receive_round-fault_iff_example :
    (receive_round client (message extern4_request) ≡ none)
    ↔ IsOverrunning (short_to_int (command_of extern4_request))
unfolding peek
receive_round-fault_iff_example =
    receive_round-fault_iff client extern4_request extern4_request-IsBytes (omega arith)
      (omega arith) refl
