-- ===== src/Tcp/State.antt =====
-- process1.h: what the threads of a client share. Locks and thread ids are not part of the record:
-- each access of the code is under its lock, but for those that the thread modules name.
use communicate_core.Common.{ℕ, Bool, List}
use communicate_core.Handler.{LogLine}

-- `BUFFER_SIZE`
abbrev pub buffer_size : ℕ
buffer_size = 1024

-- `SHARED_DATA`
pub record SharedData : Type 0 where
  pub bytes : List ℕ
  pub data_size : ℕ
  pub cmd : ℕ

-- `CLIENT_INFO`
pub record ClientInfo : Type 0 where
  pub client_sock : ℕ
  pub exit_flag : Bool
  pub shared : SharedData

-- What a thread does outside of the record.
pub data Effect : Type 0 where
  disconnect : (sock : ℕ) → Effect  -- `handleClientDisconnection`
  log : LogLine → Effect
  signal : Effect  -- `pthread_cond_signal` on the client's condition
  send : (sock : ℕ) (bytes : List ℕ) → Effect  -- `sendMessage`
