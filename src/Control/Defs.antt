-- ===== src/Control/Defs.antt =====
-- `recvCommandDataThread` of recv-command-data.c, `recvProcessingDataThread` of
-- recv-processing-data.c and `main` of process3.c. A pipe is the bytes that are in it. A `write` of
-- at most `DATA_SIZE` bytes puts them all in, and a `read` takes what there is, up to its size.
use communicate_core.Common.{
  ℕ, ◌-◌, List, ◌++◌, Bool, true, false, Option, some, ◌>>=◌, ltb, if◌then◌else◌, length, take,
  drop,
}
use communicate_core.Memory.{store, copy_bytes}

-- `DATA_SIZE`
abbrev pub data_size : ℕ
data_size = 128

-- The return of `udsRecvMsgTimeout`.
pub data Received : Type 0 where
  timeout : Received
  failed : Received
  message : List ℕ → Received

-- An iteration of either receiving thread: what is in its pipe afterwards.
unfoldable pub forward : Received → List ℕ → List ℕ
forward (Received.message bytes) pipe = if ltb 0 (length bytes) then pipe ++ bytes else pipe
forward Received.timeout pipe = pipe
forward Received.failed pipe = pipe

-- The outcome of a read of the main loop: the buffer, the pipe, and the bytes that were read.
pub record Read : Type 0 where
  pub buffer : List ℕ
  pub pipe : List ℕ
  pub bytes : List ℕ

-- `read`, and the terminator behind what was read.
unfoldable pub read_pipe : List ℕ → List ℕ → Option Read
read_pipe buffer pipe = do
  let bytes = take (data_size - 1) pipe
  copied ← copy_bytes (length bytes) buffer bytes
  terminated ← if ltb 0 (length bytes) then store 1 copied (length bytes) 0 else some copied
  some (record { buffer = terminated; pipe = drop (data_size - 1) pipe; bytes = bytes })

-- The main loop's buffer, the two pipes, and what was read from each so far.
pub record Control : Type 0 where
  pub buffer : List ℕ
  pub cmd_pipe : List ℕ
  pub ctrl_pipe : List ℕ
  pub cmd_read : List ℕ
  pub ctrl_read : List ℕ

-- The return of `select`: an error, or the bits of the two pipes.
pub data Selected : Type 0 where
  select_error : Selected
  ready : (cmd ctrl : Bool) → Selected

unfoldable pub read_cmd : Control → Bool → Option Control
read_cmd c false = some c
read_cmd c true = do
  r ← read_pipe c.buffer c.cmd_pipe
  some (record c { buffer = r.buffer; cmd_pipe = r.pipe; cmd_read = c.cmd_read ++ r.bytes })

unfoldable pub read_ctrl : Control → Bool → Option Control
read_ctrl c false = some c
read_ctrl c true = do
  r ← read_pipe c.buffer c.ctrl_pipe
  some (record c { buffer = r.buffer; ctrl_pipe = r.pipe; ctrl_read = c.ctrl_read ++ r.bytes })

unfoldable pub main_round : Control → Selected → Option Control
main_round c select_error = some c
main_round c (ready cmd ctrl) = do c ← read_cmd c cmd; read_ctrl c ctrl
