-- ===== src/Tcp/Server/Survivor/Tests.antt =====
-- The client of the second slot hangs up, and another one takes its slot.
use communicate_core.Common.{ℕ, ◌≡◌, [], ◌∷◌, true, arith}
use communicate_core.Tcp.State.{ClientInfo, Effect}
use communicate_core.Tcp.Send.{working, waiting, leaving}
use communicate_core.Tcp.Session.{Session, Step}
use communicate_core.Tcp.Accept.Slots.{served}
use communicate_core.Tcp.Server.Defs.{empty_slot, Process, Move, Moves, sender, alone}
use communicate_core.Tcp.Server.Survivor.{IsShared, both_run, hung, old_sender_stays}

abbrev slot : ℕ → ClientInfo
slot sock = served sock empty_slot

abbrev before : Process
before = both_run 3 (slot 4 ∷ []) (slot 6 ∷ []) (0 ∷ 1 ∷ 2 ∷ []) (slot 5) [] [] 7

abbrev closing : Process
closing = hung 3 (slot 4 ∷ []) (slot 6 ∷ []) (0 ∷ 1 ∷ 2 ∷ []) (slot 5) [] [] 7

abbrev closed_slot : ClientInfo
closed_slot = record (slot 5) { client_sock = 0; exit_flag = true }

old_sender_stays_example :
    Moves before closing
    × ((t : Session)
        → Step (alone sender working closed_slot (Effect.disconnect 5 ∷ [])) t
        → t.sender ≡ leaving)
    × (back : Process) × Moves closing back
    × IsShared (slot 4 ∷ []) (slot 6 ∷ []) (served 7 (slot 5)) working back []
    × ((t : Session)
        → Step (alone sender working (served 7 (slot 5)) back.effects) t
        → t.sender ≡ waiting)
    × (on : Process) × Move back on
    × IsShared (slot 4 ∷ []) (slot 6 ∷ []) (served 7 (slot 5)) waiting on []
old_sender_stays_example =
    old_sender_stays 3 (slot 4 ∷ []) (slot 6 ∷ []) (0 ∷ 1 ∷ 2 ∷ []) (slot 5) [] [] 7 (omega arith)
      (omega arith)
