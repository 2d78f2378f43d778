-- ===== src/Tcp/Session/Answers.antt =====
-- A request and its answer, through both threads.
use communicate_core.Common.{
  ℕ, ◌+◌, ◌≤◌, ◌<◌, ◌≡◌, refl, ◌∙◌, List, [], ◌∷◌, ◌++◌, map, true, arith, length, short_to_int,
}
use communicate_core.Memory.{byte_at, IsBytes}
use communicate_core.Frame.Layout.{frame_size}
use communicate_core.Frame.Build.Outcome.{answer_size}
use communicate_core.Frame.Check.Verdict.{stated_size}
use communicate_core.Handler.Effect.{effect}
use communicate_core.Handler.Dispatch.{expected_log}
use communicate_core.Tcp.State.{buffer_size, ClientInfo, Effect}
use communicate_core.Tcp.Receive.{Round, message}
use communicate_core.Tcp.Receive.Answers.{IsAnswered, payload_of, response_of}
use communicate_core.Tcp.Receive.Rounds.{
  received, command_of, IsOverrunning, receive_round-IsAnswered,
}
use communicate_core.Tcp.Send.{working, waiting, woken}
use communicate_core.Tcp.Session.Defs.{
  Session, arrives, wakes, Reach, here, next, after_round, after_wait,
}
use communicate_core.Tcp.Session.Mailbox.{
  IsAnswer, HoldsAnswer, receive_round-IsKept, taken, byte_at-taken, taken-IsAnswer,
  send_round-taken,
}

-- A reply to the request `bytes`: its command's whole answer.
pub record IsReplyTo (bytes reply : List ℕ) : Type 0 where
  pub size : length reply ≡ frame_size (answer_size (command_of bytes))
  pub answer : IsAnswer (command_of bytes) reply
  pub payload :
      (j : ℕ)
      → 11 ≤ j
      → j < 11 + answer_size (command_of bytes)
      → byte_at reply j
        ≡ byte_at
            (effect
              (short_to_int (command_of bytes))
              (payload_of (received bytes))
              (response_of (command_of bytes)))
            j

-- What the sending thread takes out of the mailbox that such a round left.
pub answered-IsReplyTo :
    (client : ClientInfo) (bytes : List ℕ) (round : Round)
    → HoldsAnswer round.client.shared
    → IsAnswered client (command_of bytes) (received bytes) round
    → IsReplyTo bytes (taken round.client.shared)
answered-IsReplyTo client bytes round mailbox a =
    let (sized, whole) =
      taken-IsAnswer round.client.shared mailbox (command_of bytes) a.size
        (record { frame = a.frame; from = a.from; command = a.command }) in
    record {
      size = sized;
      answer = whole;
      payload = λ j low high.
          byte_at-taken round.client.shared mailbox j (omega (arith, a.size))
          ∙ a.payload j low high;
    }

-- A request of the stated size, with a command that is not one of the three that overrun, arrives
-- while the sending thread waits. If that thread is then woken, what went out since are the log of
-- the dispatch, the signal, and one message to the client, the whole answer of its command, and the
-- receiving thread works on.
pub request_answered :
    (s : Session) (bytes : List ℕ)
    → HoldsAnswer s.client.shared
    → s.receiver ≡ working
    → s.sender ≡ waiting
    → IsBytes bytes
    → 11 ≤ length bytes
    → length bytes ≤ buffer_size
    → stated_size (received bytes) ≡ length bytes
    → ¬ IsOverrunning (short_to_int (command_of bytes))
    → (t : Session) × (reply : List ℕ) × Reach s t
      × IsReplyTo bytes reply
      × (t.effects
          ≡ (s.effects
              ++ (map Effect.log (expected_log (short_to_int (command_of bytes)) true)
                  ++ (Effect.signal ∷ [])))
            ++ (Effect.send s.client.client_sock reply ∷ []))
      × (t.receiver ≡ working)
request_answered s bytes h receives waits are_bytes long fits same fine =
    let (round, done, a, checked) =
      receive_round-IsAnswered s.client bytes are_bytes fits long same fine in
    let kept =
      receive_round-IsKept s.client (message bytes) round (are_bytes, fits, omega arith) h done in
    let sent = Effect.send round.client.client_sock (taken round.client.shared) ∷ [] in
    (
      after_wait (after_round s round) sent,
      taken round.client.shared,
      next
          (next here (arrives s (message bytes) round (are_bytes, fits, omega arith) receives done))
          (wakes (after_round s round) woken sent waits
            (send_round-taken round.client kept.mailbox)),
      answered-IsReplyTo s.client bytes round kept.mailbox a,
      rw (a.effects, a.same_sock) refl,
      rw a.goes_on refl,
    )
