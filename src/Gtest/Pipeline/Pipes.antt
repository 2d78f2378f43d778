-- ===== src/Gtest/Pipeline/Pipes.antt =====
-- The pipes of the test, before its loop and behind it.
use communicate_core.Common.{
  ℕ, ◌+◌, List, [], ◌∷◌, Bool, ◌==◌, ◌&&◌, Option, some, ◌>>=◌, ltb, if◌then◌else◌, arith,
}
use communicate_core.Control.Setup.{Ends, PipeInfo, IsCoveredBy}
use communicate_core.Gtest.Pipeline.Defs.{Pipeline, message_count}

-- The two calls of `pipe`, none if the test exits.
unfoldable pub open_pipes : Option Ends → Option Ends → Option PipeInfo
open_pipes first second = do
  cmd_fd ← first
  ctrl_fd ← second
  some (record { ctrl_fd = ctrl_fd; cmd_fd = cmd_fd })

-- `maxfd`
unfoldable pub test_max_fd : PipeInfo → ℕ
test_max_fd info =
    (if ltb info.ctrl_fd.reads info.cmd_fd.reads then info.cmd_fd.reads else info.ctrl_fd.reads) + 1

-- `readfds`
unfoldable pub test_watches : PipeInfo → List ℕ
test_watches info = info.ctrl_fd.reads ∷ info.cmd_fd.reads ∷ []

-- The expectations behind the loop.
unfoldable pub final_expects : Pipeline → Bool
final_expects t = t.command_count == message_count && t.process_count == message_count

-- What is closed at the end.
unfoldable pub closed_ends : PipeInfo → List ℕ
closed_ends info =
    info.ctrl_fd.reads ∷ info.ctrl_fd.writes ∷ info.cmd_fd.reads ∷ info.cmd_fd.writes ∷ []

pub test_watches-IsCoveredBy :
    (info : PipeInfo) → IsCoveredBy (test_max_fd info) (test_watches info)
unfolding test_max_fd test_watches
test_watches-IsCoveredBy info = record { below = ground arith; tight = ground arith }
