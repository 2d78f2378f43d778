-- ===== src/Tcp/Session/Sending.antt =====
-- The whole of `sendThread`, over what it finds in the client's record at each turn of its loop.
pub mod Tests
use communicate_core.Common.{
  ◌≡◌, refl, ap, List, [], ◌∷◌, ◌++◌, Bool, Bool-cases, inl, inr, true, false, Option, some, ◌>>=◌,
  if◌then◌else◌, arith,
}
use communicate_core.Tcp.State.{ClientInfo, Effect}
use communicate_core.Tcp.Send.{
  Place, leaving, Waited, timed_out, woken, send_check, send_round, set_exit_flag,
}
use communicate_core.Tcp.Session.Mailbox.{
  HoldsAnswer, IsReply, taken, taken-IsReply, send_round-taken,
}
use communicate_core.Tcp.Session.Effects.{AllSent, AllSent-append}

-- The record at the test of the flag, the return of the wait, and the record behind the wait.
pub record Turn : Type 0 where
  pub tested : ClientInfo
  pub ret : Waited
  pub behind : ClientInfo

-- What the loop has sent, and whether it ended by `break`.
pub record Sending : Type 0 where
  pub effects : List Effect
  pub stop : Bool

abbrev pub is_leaving : Place → Bool
is_leaving leaving = true
is_leaving place = false

unfoldable pub send_loop : List Turn → Option Sending
send_loop [] = some (record { effects = []; stop = false })
send_loop (t ∷ ts) =
    let rest : Option Sending = (do
      sent ← send_round t.behind t.ret
      last ← send_loop ts
      some (record last { effects = sent ++ last.effects })) in
    if is_leaving (send_check t.tested) then some (record { effects = []; stop = true }) else rest

-- The whole thread, with the record as its end finds it. Without the peer's address it ends at once;
-- behind the loop it sets the flag.
unfoldable pub send_thread :
    (has_peer : Bool) → List Turn → ClientInfo → Option (Sending × ClientInfo)
send_thread false turns last = some (record { effects = []; stop = true }, last)
send_thread true turns last = do
  sending ← send_loop turns
  some (sending, if sending.stop then set_exit_flag last else last)

abbrev pub AllHold : List Turn → Type 0
AllHold [] = Unit {0}
AllHold (t ∷ ts) = HoldsAnswer t.behind.shared × AllHold ts

-- Some test finds the flag.
abbrev pub is_flagged : List Turn → Bool
is_flagged [] = false
is_flagged (t ∷ ts) = if t.tested.exit_flag then true else is_flagged ts

-- What a turn sends that finds no flag: the mailbox, if it is woken.
abbrev pub sent_in : Waited → ClientInfo → List Effect
sent_in timed_out client = []
sent_in woken client = Effect.send client.client_sock (taken client.shared) ∷ []

-- What the turns send up to the first test that finds the flag.
abbrev pub replies : List Turn → List Effect
replies [] = []
replies (t ∷ ts) = if t.tested.exit_flag then [] else sent_in t.ret t.behind ++ replies ts

send_round-sent :
    (client : ClientInfo) (ret : Waited)
    → HoldsAnswer client.shared
    → send_round client ret ≡ some (sent_in ret client)
unfolding send_round
send_round-sent client timed_out h = refl
send_round-sent client woken h = send_round-taken client h

send_loop_lem :
    (ts : List Turn)
    → AllHold ts
    → send_loop ts ≡ some (record { effects = replies ts; stop = is_flagged ts })
unfolding send_loop send_check
send_loop_lem [] h = refl
send_loop_lem (t ∷ ts) h = elim (Bool-cases t.tested.exit_flag) [
  | inl flag ↦ rw flag refl
  | inr none_set ↦ rw (none_set, send_round-sent t.behind t.ret h.0, send_loop_lem ts h.1) refl
]

replies-AllSent : (ts : List Turn) → AllHold ts → AllSent IsReply (replies ts)
replies-AllSent [] h = tt
replies-AllSent (t ∷ ts) h = elim (Bool-cases t.tested.exit_flag) [
  | inl flag ↦ rw flag tt
  | inr none_set ↦ rw none_set (
      AllSent-append IsReply (sent_in t.ret t.behind) (replies ts) (by_ret t.ret)
        (replies-AllSent ts h.1))
]
  where
    by_ret : (ret : Waited) → AllSent IsReply (sent_in ret t.behind)
    by_ret timed_out = tt
    by_ret woken = (taken-IsReply t.behind.shared h.0, tt)

-- Over any number of turns, with a mailbox that is empty or holds an answer behind each wait, the
-- thread does not fault. With the peer's address it sends, for each turn that is woken before a test
-- finds the exit flag, the mailbox as it is then, on the socket that the record has then: a whole
-- answer, or nothing of a mailbox that is empty. It leaves its loop exactly if a test finds the
-- flag, which is then set. Without the address it ends, sends nothing, and leaves the record alone.
pub send_thread_lem :
    (turns : List Turn) (last : ClientInfo)
    → AllHold turns
    → (send_thread true turns last
        ≡ some (
          record { effects = replies turns; stop = is_flagged turns },
          record last { exit_flag = if is_flagged turns then true else last.exit_flag },
        ))
      × AllSent IsReply (replies turns)
      × (send_thread false turns last ≡ some (record { effects = []; stop = true }, last))
unfolding send_thread set_exit_flag
send_thread_lem turns last h =
    (rw (send_loop_lem turns h) (ground arith), replies-AllSent turns h, refl)
