-- ===== src/Tcp/Server/Connected/Tests.antt =====
-- A controller connects to a server with one client, and sends a keep-alive.
use communicate_core.Common.{ℕ, ◌≡◌, inl, refl, List, [], ◌∷◌, ◌++◌, map, true, arith, short_to_int}
use communicate_core.Memory.{peek}
use communicate_core.Frame.Samples.{keep_alive_request, keep_alive_request-IsBytes}
use communicate_core.Handler.Dispatch.{expected_log}
use communicate_core.Tcp.State.{Effect}
use communicate_core.Tcp.Receive.Rounds.{command_of}
use communicate_core.Tcp.Session.Answers.{IsReplyTo}
use communicate_core.Tcp.Accept.Slots.{served}
use communicate_core.Tcp.Server.Defs.{empty_slot, Process, Moves}
use communicate_core.Tcp.Server.Survivor.{with_client}
use communicate_core.Tcp.Server.Connected.{connected_answered}

connected_answered_example :
    (q : Process) × (reply : List ℕ) × Moves
      (with_client 3 (served 4 empty_slot ∷ []) (empty_slot ∷ []) (0 ∷ []) empty_slot [] [])
      q
    × IsReplyTo keep_alive_request reply
    × (q.effects
        ≡ ([]
            ++ (map Effect.log (expected_log (short_to_int (command_of keep_alive_request)) true)
                ++ (Effect.signal ∷ [])))
          ++ (Effect.send 5 reply ∷ []))
unfolding peek
connected_answered_example =
    connected_answered 3 (served 4 empty_slot ∷ []) (empty_slot ∷ []) (0 ∷ []) [] empty_slot [] 5
      keep_alive_request (omega arith) refl (omega arith)
      (record { whole = refl; holds = inl refl }) keep_alive_request-IsBytes (omega arith)
      (omega arith) refl (omega arith)
