-- ===== src/Tcp/Session/Exit.antt =====
-- How the sending thread of a client ends.
use mathlib.Core.Option.{some-injective}
use communicate_core.Common.{ℕ, ◌+◌, ◌≤◌, ◌≡◌, refl, sym, ◌∙◌, List, [], true, some, arith}
use communicate_core.Tcp.State.{ClientInfo, Effect}
use communicate_core.Tcp.Send.{
  Place, waiting, Waited, timed_out, woken, send_check, send_round, set_exit_flag,
}
use communicate_core.Tcp.Session.Defs.{
  Session, Step, arrives, flags, checks, wakes, ends, Reach, here, next,
}
use communicate_core.Tcp.Session.Effects.{count_sends, count_sends-append}
use communicate_core.Tcp.Session.Mailbox.{HoldsAnswer, receive_round-IsKept, send_round-taken}

-- How many messages the sending thread may still send once the flag is set.
abbrev pub allowance : Place → ℕ
allowance waiting = 1
allowance place = 0

record IsEnding (bound : ℕ) (s : Session) : Type 0 where
  mailbox : HoldsAnswer s.client.shared
  flag : s.client.exit_flag ≡ true
  few : count_sends s.effects + allowance s.sender ≤ bound

sent_one :
    (client : ClientInfo) (w : Waited) (sent : List Effect)
    → HoldsAnswer client.shared
    → send_round client w ≡ some sent
    → count_sends sent ≤ 1
unfolding send_round
sent_one client timed_out sent h e = rw (sym (some-injective [] sent e)) (omega arith)
sent_one client woken sent h e =
    rw (sym (some-injective _ sent (sym (send_round-taken client h) ∙ e))) (omega arith)

module _ (bound : ℕ) where
  Step-IsEnding : {s t : Session} → Step s t → IsEnding bound s → IsEnding bound t
  unfolding set_exit_flag send_check
  Step-IsEnding (arrives s r round arrival place done) h =
      let kept = receive_round-IsKept s.client r round arrival h.mailbox done in
      record {
        mailbox = kept.mailbox;
        flag = kept.same_flag ∙ h.flag;
        few = omega (arith, h.few, kept.silent, count_sends-append s.effects round.effects);
      }
  Step-IsEnding (flags s place) h = record { mailbox = h.mailbox; flag = refl; few = h.few }
  Step-IsEnding (checks s place) h = record {
    mailbox = h.mailbox;
    flag = h.flag;
    few = ground (arith, h.few, h.flag);
  }
  Step-IsEnding (wakes s w sent place done) h = record {
    mailbox = h.mailbox;
    flag = h.flag;
    few = ground (
      arith,
      h.few,
      place,
      count_sends-append s.effects sent,
      sent_one s.client w sent h.mailbox done,
    );
  }
  Step-IsEnding (ends s place) h = record {
    mailbox = h.mailbox;
    flag = refl;
    few = ground (arith, h.few, place);
  }

  Reach-IsEnding : {s t : Session} → Reach s t → IsEnding bound s → IsEnding bound t
  Reach-IsEnding here h = h
  Reach-IsEnding (next before step) h = Step-IsEnding step (Reach-IsEnding before h)

-- Once the exit flag is set it stays set, and the sending thread sends at most one more message,
-- and none if it is not in its wait.
pub exit_flag_silences :
    (s t : Session)
    → HoldsAnswer s.client.shared
    → s.client.exit_flag ≡ true
    → Reach s t
    → (t.client.exit_flag ≡ true)
      × (count_sends t.effects ≤ count_sends s.effects + allowance s.sender)
exit_flag_silences s t h flag reached =
    let ending =
      Reach-IsEnding (count_sends s.effects + allowance s.sender) reached
        (record { mailbox = h; flag = flag; few = omega arith }) in
    (ending.flag, omega (arith, ending.few))
