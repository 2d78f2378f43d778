-- ===== src/Gtest/Pipeline/Defs.antt =====
-- gtest-controll-pipeline.cc: the two stub servers and the loop of the test, which reads the pipes.
use communicate_core.Common.{
  ℕ, ◌+◌, ◌-◌, ◌/◌, ◌%◌, ◌<◌, ◌≡◌, List, [], ◌∷◌, Bool, true, false, Option, some, ◌>>=◌, ◌==◌,
  ◌&&◌, ltb, if◌then◌else◌, length, take, drop, replicate,
}
use communicate_core.Memory.{store, copy_bytes}
use communicate_core.Control.{data_size, message, forward}

-- `%03d` of a number below 1000.
abbrev pub three_digits : ℕ → List ℕ
three_digits n = (48 + n / 100) ∷ (48 + n / 10 % 10) ∷ (48 + n % 10) ∷ []

-- "command%03d"
abbrev pub command_text : ℕ → List ℕ
command_text n = 99 ∷ 111 ∷ 109 ∷ 109 ∷ 97 ∷ 110 ∷ 100 ∷ three_digits n

-- "sensorProcess%03d"
abbrev pub process_text : ℕ → List ℕ
process_text n =
    115 ∷ 101 ∷ 110 ∷ 115 ∷ 111 ∷ 114 ∷ 80 ∷ 114 ∷ 111 ∷ 99 ∷ 101 ∷ 115 ∷ 115 ∷ three_digits n

-- How many messages each stub sends.
abbrev pub message_count : ℕ
message_count = 3

-- A string ends before its first zero.
unfoldable pub c_string : List ℕ → List ℕ
c_string [] = []
c_string (x ∷ xs) = let rest = c_string xs in if x == 0 then [] else x ∷ rest

unfoldable pub equal_bytes : List ℕ → List ℕ → Bool
equal_bytes [] [] = true
equal_bytes (x ∷ xs) (y ∷ ys) = (x == y) && equal_bytes xs ys
equal_bytes xs ys = false

-- `memset` and `sprintf` into a buffer of `DATA_SIZE` bytes.
unfoldable pub print_text : List ℕ → Option (List ℕ)
print_text text = do
  buffer ← copy_bytes (length text) (replicate data_size 0) text
  store 1 buffer (length text) 0

-- A read of the test: what is left in the pipe, the next count, and whether the string is as
-- expected, if there was one.
pub record Checked : Type 0 where
  pub pipe : List ℕ
  pub count : ℕ
  pub passed : Bool

unfoldable pub read_checked : (ℕ → List ℕ) → ℕ → List ℕ → Option Checked
read_checked text count pipe = do
  let bytes = take (data_size - 1) pipe
  buffer ← copy_bytes (length bytes) (replicate data_size 0) bytes
  expected ← print_text (text count)
  let checked : Checked = record {
    pipe = drop (data_size - 1) pipe;
    count = count + 1;
    passed = equal_bytes (c_string buffer) (c_string expected);
  }
  some (
      if ltb 0 (length bytes)
      then checked
      else record { pipe = drop (data_size - 1) pipe; count = count; passed = true })

-- The stubs' counts, the two pipes, the test's two counts, and whether all expectations held.
pub record Pipeline : Type 0 where
  pub commands_sent : ℕ
  pub processes_sent : ℕ
  pub cmd_pipe : List ℕ
  pub ctrl_pipe : List ℕ
  pub command_count : ℕ
  pub process_count : ℕ
  pub passed : Bool

-- A message of a stub, behind the thread that receives it.
unfoldable pub send_command : Pipeline → Pipeline
unfolding forward
send_command t = record t {
  commands_sent = t.commands_sent + 1;
  cmd_pipe = forward (message (command_text t.commands_sent)) t.cmd_pipe;
}

unfoldable pub send_process : Pipeline → Pipeline
unfolding forward
send_process t = record t {
  processes_sent = t.processes_sent + 1;
  ctrl_pipe = forward (message (process_text t.processes_sent)) t.ctrl_pipe;
}

-- The two reads of an iteration, for the bits of `select`.
unfoldable pub check_command : Pipeline → Bool → Option Pipeline
check_command t false = some t
check_command t true = do
  r ← read_checked command_text t.command_count t.cmd_pipe
  some (record t { cmd_pipe = r.pipe; command_count = r.count; passed = t.passed && r.passed })

unfoldable pub check_process : Pipeline → Bool → Option Pipeline
check_process t false = some t
check_process t true = do
  r ← read_checked process_text t.process_count t.ctrl_pipe
  some (record t { ctrl_pipe = r.pipe; process_count = r.count; passed = t.passed && r.passed })

-- The condition of the loop, and an iteration: `select` returns when a pipe is not empty.
abbrev pub goes_on : Pipeline → Bool
goes_on t = ltb (t.command_count + t.process_count) 6

unfoldable pub test_round : Pipeline → Option Pipeline
test_round t = do
  next ← check_command t (ltb 0 (length t.cmd_pipe))
  check_process next (ltb 0 (length t.ctrl_pipe))

abbrev pub set_up : Pipeline
set_up = record {
  commands_sent = 0;
  processes_sent = 0;
  cmd_pipe = [];
  ctrl_pipe = [];
  command_count = 0;
  process_count = 0;
  passed = true;
}

-- The stubs and the test, in any order in which a message comes only when the one before it has been
-- read.
pub data PromptStep : Pipeline → Pipeline → Type 0 where
  sends_command :
      (t : Pipeline)
      → t.commands_sent < message_count
      → t.cmd_pipe ≡ []
      → PromptStep t (send_command t)
  sends_process :
      (t : Pipeline)
      → t.processes_sent < message_count
      → t.ctrl_pipe ≡ []
      → PromptStep t (send_process t)
  reads : (t u : Pipeline) → goes_on t ≡ true → test_round t ≡ some u → PromptStep t u

pub data PromptRun (t : Pipeline) : Pipeline → Type 0 where
  here : PromptRun t t
  next : {u v : Pipeline} → PromptRun t u → PromptStep u v → PromptRun t v
