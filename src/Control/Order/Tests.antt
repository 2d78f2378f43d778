-- ===== src/Control/Order/Tests.antt =====
-- Two messages on one channel, and a read between them.
use communicate_core.Common.{ℕ, ◌≡◌, refl, List, [], ◌∷◌, true, false, some, replicate}
use communicate_core.Memory.{store, copy_bytes}
use communicate_core.Control.Defs.{
  Control, message, forward, ready, main_round, read_cmd, read_ctrl, read_pipe,
}
use communicate_core.Control.Rounds.{IsRound}
use communicate_core.Control.Order.{
  System, start, cmd_arrives, reads, Reach, here, next, cmd_arrived, IsOrdered, nothing_lost,
}

abbrev buffer : List ℕ
buffer = replicate 128 0

abbrev sent : System
sent = cmd_arrived (start buffer) (message (1 ∷ 2 ∷ []))

abbrev after_read : Control
after_read = record {
  buffer = 1 ∷ 2 ∷ replicate 126 0;
  cmd_pipe = [];
  ctrl_pipe = [];
  cmd_read = 1 ∷ 2 ∷ [];
  ctrl_read = [];
}

abbrev was_read : System
was_read = record sent { control = after_read }

abbrev sent_again : System
sent_again = cmd_arrived was_read (message (3 ∷ []))

sent_again_reached : Reach (start buffer) sent_again
unfolding forward main_round read_cmd read_ctrl read_pipe store copy_bytes
sent_again_reached =
    next
      (next (next here (cmd_arrives (start buffer) (message (1 ∷ 2 ∷ []))))
        (reads sent (ready true false) after_read refl))
      (cmd_arrives was_read (message (3 ∷ [])))

nothing_lost_example :
    IsOrdered sent_again
    × ((after : Control) × (main_round sent_again.control (ready true true) ≡ some after)
        × IsRound sent_again.control after)
nothing_lost_example = nothing_lost buffer sent_again (ready true true) refl sent_again_reached
