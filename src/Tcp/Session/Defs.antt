-- ===== src/Tcp/Session/Defs.antt =====
-- The threads of a client, process1's `receiveThread` and `sendThread`, in any order of their steps.
-- A step is what a thread does between two waits: the mailbox and the flag have locks.
use communicate_core.Common.{
  ℕ, ◌≤◌, ◌<◌, ◌≡◌, List, [], ◌++◌, false, some, if◌then◌else◌, replicate, length,
}
use communicate_core.Memory.{IsBytes}
use communicate_core.Tcp.State.{buffer_size, ClientInfo, Effect}
use communicate_core.Tcp.Receive.{Received, closed, failed, message, Round, receive_round}
use communicate_core.Tcp.Send.{
  Place, working, waiting, leaving, gone, Waited, send_check, send_round, set_exit_flag,
}

pub record Session : Type 0 where
  pub client : ClientInfo
  pub receiver : Place
  pub sender : Place
  pub effects : List Effect

-- A client in a slot that was never used.
abbrev pub fresh : ℕ → Session
fresh sock = record {
  client = record {
    client_sock = sock;
    exit_flag = false;
    shared = record { bytes = replicate buffer_size 0; data_size = 0; cmd = 0 };
  };
  receiver = working;
  sender = working;
  effects = [];
}

-- What `recvMsgTimeout` may give: some bytes, no more than the buffer takes.
abbrev pub IsArrival : Received → Type 0
IsArrival closed = Unit {0}
IsArrival failed = Unit {0}
IsArrival (message bytes) = IsBytes bytes × (length bytes ≤ buffer_size) × (0 < length bytes)

abbrev pub after_round : Session → Round → Session
after_round s round = record s {
  client = round.client;
  receiver = if round.stop then leaving else working;
  effects = s.effects ++ round.effects;
}

abbrev pub after_flag : Session → Session
after_flag s = record s { client = set_exit_flag s.client; receiver = gone }

abbrev pub after_check : Session → Session
after_check s = record s { sender = send_check s.client }

abbrev pub after_wait : Session → List Effect → Session
after_wait s sent = record s { sender = working; effects = s.effects ++ sent }

abbrev pub after_end : Session → Session
after_end s = record s { client = set_exit_flag s.client; sender = gone }

pub data Step : Session → Session → Type 0 where
  arrives :
      (s : Session) (r : Received) (round : Round)
      → IsArrival r
      → s.receiver ≡ working
      → receive_round s.client r ≡ some round
      → Step s (after_round s round)
  flags : (s : Session) → s.receiver ≡ leaving → Step s (after_flag s)
  checks : (s : Session) → s.sender ≡ working → Step s (after_check s)
  wakes :
      (s : Session) (w : Waited) (sent : List Effect)
      → s.sender ≡ waiting
      → send_round s.client w ≡ some sent
      → Step s (after_wait s sent)
  ends : (s : Session) → s.sender ≡ leaving → Step s (after_end s)

pub data Reach (s : Session) : Session → Type 0 where
  here : Reach s s
  next : {t u : Session} → Reach s t → Step t u → Reach s u
