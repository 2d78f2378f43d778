-- ===== src/Handler/Defs.antt =====
-- The command handlers of command.c. A pointer is a buffer with an offset into it. The payload and
-- the answer stand in different buffers, as at both callers.
use communicate_core.Common.{ℕ, ◌+◌, List, Option, some, ◌>>=◌}
use communicate_core.Memory.{load, store}
use communicate_core.Command.Ids.{
  cmd_success, sizeof_double, extern1_at, extern2_at, extern3_at, extern4_at,
}

pub record Pointer : Type 0 where
  pub mem : List ℕ
  pub at : ℕ

-- A handler gives the buffer of the answer as it leaves it, and its return value.
abbrev pub Handler : Type 0
Handler = Pointer → Pointer → Option (List ℕ × ℕ)

unfoldable pub keep_alive : Handler
keep_alive payload response = do
  mem ← store 1 response.mem response.at 0x01
  some (mem, cmd_success)

unfoldable pub i_bit : Handler
i_bit payload response = do
  mem ← store 1 response.mem response.at 0x01
  mem ← store 1 mem (response.at + 1) 0x01
  some (mem, cmd_success)

unfoldable pub r_bit : Handler
r_bit payload response = do
  mem ← store 1 response.mem response.at 0x01
  mem ← store 1 mem (response.at + 1) 0x01
  some (mem, cmd_success)

unfoldable pub c_bit : Handler
c_bit payload response = do
  mem ← store 1 response.mem response.at 0x01
  mem ← store 1 mem (response.at + 1) 0x01
  some (mem, cmd_success)

-- `to->member = from->member` for a `double` at `from_member` of the payload's struct: its bits are
-- copied.
unfoldable pub copy_double : Pointer → ℕ → List ℕ → ℕ → Option (List ℕ)
copy_double payload from_member mem to = do
  value ← load sizeof_double payload.mem (payload.at + from_member)
  store sizeof_double mem to value

unfoldable pub recv_extern1_data : Handler
unfolding copy_double
recv_extern1_data payload response = do
  mem ← copy_double payload 0 response.mem (response.at + extern1_at)
  mem ← copy_double payload 8 mem (response.at + extern1_at + 8)
  mem ← copy_double payload 16 mem (response.at + extern1_at + 16)
  some (mem, cmd_success)

unfoldable pub recv_extern2_data : Handler
unfolding copy_double
recv_extern2_data payload response = do
  mem ← copy_double payload 0 response.mem (response.at + extern2_at)
  mem ← copy_double payload 8 mem (response.at + extern2_at + 8)
  mem ← copy_double payload 16 mem (response.at + extern2_at + 16)
  some (mem, cmd_success)

unfoldable pub recv_extern3_data : Handler
unfolding copy_double
recv_extern3_data payload response = do
  mem ← copy_double payload 0 response.mem (response.at + extern3_at)
  mem ← copy_double payload 8 mem (response.at + extern3_at + 8)
  some (mem, cmd_success)

unfoldable pub recv_extern4_data : Handler
unfolding copy_double
recv_extern4_data payload response = do
  mem ← copy_double payload 0 response.mem (response.at + extern4_at)
  mem ← copy_double payload 8 mem (response.at + extern4_at + 8)
  mem ← copy_double payload 16 mem (response.at + extern4_at + 16)
  some (mem, cmd_success)

unfoldable pub recv_processing_data : Handler
recv_processing_data payload response = some (response.mem, cmd_success)

unfoldable pub recv_controll_data : Handler
recv_controll_data payload response = some (response.mem, cmd_success)

unfoldable pub recv_command_data : Handler
recv_command_data payload response = some (response.mem, cmd_success)
