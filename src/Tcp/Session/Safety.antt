-- ===== src/Tcp/Session/Safety.antt =====
-- What a client is sent, in every order of the two threads' steps.
use mathlib.Core.Option.{some-injective}
use communicate_core.Common.{ℕ, ◌≡◌, inl, refl, sym, ◌∙◌, List, [], some, length-replicate}
use communicate_core.Tcp.State.{buffer_size, ClientInfo, Effect}
use communicate_core.Tcp.Send.{Waited, timed_out, woken, send_round, set_exit_flag}
use communicate_core.Tcp.Session.Defs.{
  Session, fresh, Step, arrives, flags, checks, wakes, ends, Reach, here, next,
}
use communicate_core.Tcp.Session.Effects.{AllSent, AllSent-append, AllSent-of_none}
use communicate_core.Tcp.Session.Mailbox.{
  HoldsAnswer, IsReply, receive_round-IsKept, taken-IsReply, send_round-taken,
}

pub record IsSafe (s : Session) : Type 0 where
  pub mailbox : HoldsAnswer s.client.shared
  pub replies : AllSent IsReply s.effects

sent_replies :
    (client : ClientInfo) (w : Waited) (sent : List Effect)
    → HoldsAnswer client.shared
    → send_round client w ≡ some sent
    → AllSent IsReply sent
unfolding send_round
sent_replies client timed_out sent h e = rw (sym (some-injective [] sent e)) tt
sent_replies client woken sent h e =
    let same = some-injective _ sent (sym (send_round-taken client h) ∙ e) in
    rw (sym same) (taken-IsReply client.shared h, tt)

pub Step-IsSafe : {s t : Session} → Step s t → IsSafe s → IsSafe t
unfolding set_exit_flag
Step-IsSafe (arrives s r round arrival place done) h =
    let kept = receive_round-IsKept s.client r round arrival h.mailbox done in
    record {
      mailbox = kept.mailbox;
      replies =
          AllSent-append IsReply s.effects round.effects h.replies
            (AllSent-of_none IsReply round.effects kept.silent);
    }
Step-IsSafe (flags s place) h = record { mailbox = h.mailbox; replies = h.replies }
Step-IsSafe (checks s place) h = record { mailbox = h.mailbox; replies = h.replies }
Step-IsSafe (wakes s w sent place done) h = record {
  mailbox = h.mailbox;
  replies =
      AllSent-append IsReply s.effects sent h.replies (sent_replies s.client w sent h.mailbox done);
}
Step-IsSafe (ends s place) h = record { mailbox = h.mailbox; replies = h.replies }

fresh-IsSafe : (sock : ℕ) → IsSafe (fresh sock)
fresh-IsSafe sock = record {
  mailbox = record { whole = length-replicate {A = ℕ} buffer_size 0; holds = inl refl };
  replies = tt;
}

Reach-IsSafe : {s t : Session} → Reach s t → IsSafe s → IsSafe t
Reach-IsSafe here h = h
Reach-IsSafe (next before step) h = Step-IsSafe step (Reach-IsSafe before h)

-- Whatever a client sends, and in whatever order its two threads run, from a new slot on: each
-- message to it is empty, or is exactly one whole frame of the server for the controller, with the
-- size of its command's answer; and its mailbox always is empty or holds such a frame.
pub sent_are_replies : (sock : ℕ) (s : Session) → Reach (fresh sock) s → IsSafe s
sent_are_replies sock s reached = Reach-IsSafe reached (fresh-IsSafe sock)
