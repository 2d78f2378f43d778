-- ===== src/Tcp/Receive/Ending.antt =====
-- How `receiveThread` ends.
use communicate_core.Common.{◌≡◌, List, [], ◌∷◌, ◌++◌, true, false, some, arith}
use mathlib.Core.List.{append_assoc}
use communicate_core.Common.{Option-cases, inl, inr}
use communicate_core.Tcp.State.{ClientInfo, Effect, disconnect}
use communicate_core.Tcp.Receive.Defs.{
  Received, closed, Round, receive_round, receive_loop, receive_thread,
}

-- The end of the thread of `client` behind a loop that had the given effects.
abbrev pub hung_up : ClientInfo → List Effect → Round
hung_up client effects = record {
  client = record client { client_sock = 0; exit_flag = true };
  effects = effects ++ (disconnect client.client_sock ∷ []);
  stop = true;
}

closed_loop : ClientInfo → List Effect → Round
closed_loop client effects = record {
  client = record client { client_sock = 0 };
  effects = effects ++ (disconnect client.client_sock ∷ []);
  stop = true;
}

receive_loop-closed :
    (client : ClientInfo) (events later : List Received) (last : Round)
    → receive_loop client events ≡ some last
    → last.stop ≡ false
    → receive_loop client (events ++ (closed ∷ later)) ≡ some (closed_loop last.client last.effects)
unfolding receive_loop closed_loop
receive_loop-closed client [] later last e s = unfold receive_round in ground arith
receive_loop-closed client (x ∷ events) later last e s =
    elim (Option-cases (receive_round client x)) [
      | inl fault ↦ absurd (ground arith)
      | inr (round, done) ↦ elim (Option-cases (receive_loop round.client events)) [
        | inl fault ↦ absurd (ground arith)
        | inr (rest, more) ↦ ground (
          arith,
          receive_loop-closed round.client events later rest more,
          append_assoc round.effects rest.effects (disconnect rest.client.client_sock ∷ []),
        )
      ]
    ]

-- If the thread is still in its loop after some arrivals, and then the connection is closed, it
-- ends: it disconnects the client's socket, clears it and sets the exit flag, leaves the mailbox as
-- it was, and takes nothing more from the connection.
pub receive_thread-closed :
    (client : ClientInfo) (events later : List Received) (last : Round)
    → receive_thread client true events ≡ some last
    → last.stop ≡ false
    → receive_thread client true (events ++ (closed ∷ later))
      ≡ some (hung_up last.client last.effects)
unfolding receive_thread
receive_thread-closed client events later last e s =
    elim (Option-cases (receive_loop client events)) [
      | inl fault ↦ absurd (ground arith)
      | inr (rest, more) ↦
          unfold closed_loop in ground (arith, receive_loop-closed client events later rest more)
    ]
