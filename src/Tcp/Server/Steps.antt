-- ===== src/Tcp/Server/Steps.antt =====
-- What an iteration of `main` and a step of a thread leave of the mailboxes and of the count of the
-- receiving threads.
use mathlib.Core.Option.{some-injective}
use mathlib.Core.Path.{subst}
use communicate_core.Common.{
  ℕ, zero, suc, ◌+◌, ◌≤◌, ◌≡◌, inl, inr, List, [], ◌∷◌, Bool, Bool-cases, true, false, Option, none,
  some, arith, ◌==◌, length, set, drop, drop-length_append, drop_all, get_elem?,
}
use communicate_core.Tcp.State.{ClientInfo, Effect}
use communicate_core.Tcp.Send.{Place, set_exit_flag}
use communicate_core.Tcp.Session.{Session, Step, arrives, flags, checks, wakes, ends}
use communicate_core.Tcp.Session.Mailbox.{HoldsAnswer, IsReply, receive_round-IsKept}
use communicate_core.Tcp.Session.Effects.{AllSent}
use communicate_core.Tcp.Session.Safety.{IsSafe}
use communicate_core.Tcp.Accept.{Server, started_slot, add_client, server_round}
use communicate_core.Tcp.Server.Defs.{
  Role, receiver, sender, at, Thread, spawned, alone, place_of, IsConnection,
}
use communicate_core.Tcp.Server.Threads.{is_active, active, taken_by, taken_at, add_client-active}

abbrev pub AllHold : List ClientInfo → Type 0
AllHold [] = Unit {0}
AllHold (c ∷ cs) = HoldsAnswer c.shared × AllHold cs

pub AllHold-get_elem :
    (cs : List ClientInfo) (i : ℕ) (c : ClientInfo)
    → AllHold cs
    → get_elem? cs i ≡ some c
    → HoldsAnswer c.shared
AllHold-get_elem [] i c all e = absurd (cc e)
AllHold-get_elem (x ∷ xs) zero c all e =
    subst (λ d. HoldsAnswer d.shared) (some-injective x c e) all.0
AllHold-get_elem (x ∷ xs) (suc i) c all e = AllHold-get_elem xs i c all.1 e

pub AllHold-set :
    (cs : List ClientInfo) (i : ℕ) (c : ClientInfo)
    → AllHold cs
    → HoldsAnswer c.shared
    → AllHold (set cs i c)
AllHold-set [] i c all h = tt
AllHold-set (x ∷ xs) zero c all h = (h, all.1)
AllHold-set (x ∷ xs) (suc i) c all h = (all.0, AllHold-set xs i c all.1 h)

AllHold-add_client :
    (j : ℕ) (cs : List ClientInfo) (sock : ℕ) → AllHold cs → AllHold (add_client j cs sock).group
unfolding add_client
AllHold-add_client j [] sock all = tt
AllHold-add_client j (c ∷ cs) sock all = elim (Bool-cases (c.client_sock == 0)) [
  | inl free ↦ rw free (all.0, all.1)
  | inr busy ↦ rw busy (all.0, AllHold-add_client (j + 1) cs sock all.1)
]

-- The new threads of an iteration.
abbrev pub new_threads : Server → Server → List Thread
new_threads s t = spawned (drop (length s.started) t.started)

pub record IsIterated (s t : Server) : Type 0 where
  pub holds : AllHold s.group → AllHold t.group
  pub taken : (i : ℕ) → taken_at t.group i ≡ taken_at s.group i + active i (new_threads s t)

nothing_new : (s : Server) → IsIterated s s
unfolding spawned
nothing_new s = record { holds = λ h. h; taken = λ i. rw (drop_all s.started) (omega arith) }

pub server_round-IsIterated :
    (s t : Server) (is_ready : Bool) (accepted : Option ℕ)
    → IsConnection accepted
    → server_round s is_ready accepted ≡ some t
    → IsIterated s t
unfolding server_round
server_round-IsIterated s t false accepted c e =
    subst (IsIterated s) (some-injective s t e) (nothing_new s)
server_round-IsIterated s t true none c e = absurd (cc e)
server_round-IsIterated s t true (some sock) c e =
    subst (IsIterated s) (some-injective _ t e) (record {
      holds = AllHold-add_client 0 s.group sock;
      taken = λ i.
          rw (drop-length_append s.started (started_slot (add_client 0 s.group sock).slot))
            (grind (arith, add_client-active 0 s.group sock i c));
    })

-- A step leaves a slot's socket to the thread that receives from it.
Step-covered :
    {s t : Session}
    → Step s t
    → HoldsAnswer s.client.shared
    → (n : ℕ) → n + is_active receiver (at s.receiver) ≤ taken_by s.client
    → n + is_active receiver (at t.receiver) ≤ taken_by t.client
unfolding set_exit_flag
Step-covered (arrives s r round arrival place done) held n h =
    let kept = receive_round-IsKept s.client r round arrival held done in
    elim kept.sock [
      | inl stops ↦ rw stops (ground (arith, place, h))
      | inr same ↦ ground (arith, place, h, same)
    ]
Step-covered (flags s place) held n h = ground (arith, place, h)
Step-covered (checks s place) held n h = h
Step-covered (wakes s w sent place done) held n h = h
Step-covered (ends s place) held n h = h

-- The same for one thread and its slot.
pub alone-covered :
    (role : Role) (place : Place) (client : ClientInfo) (effects : List Effect) (t : Session)
    → Step (alone role place client effects) t
    → HoldsAnswer client.shared
    → (n : ℕ) → n + is_active role (at place) ≤ taken_by client
    → n + is_active role (at (place_of role t)) ≤ taken_by t.client
alone-covered receiver place client effects t step held n h = Step-covered step held n h
alone-covered sender place client effects t step held n h =
    omega (arith, Step-covered step held n h)

pub alone-IsSafe :
    (role : Role) (place : Place) (client : ClientInfo) (effects : List Effect)
    → HoldsAnswer client.shared
    → AllSent IsReply effects
    → IsSafe (alone role place client effects)
alone-IsSafe receiver place client effects held replies = record {
  mailbox = held;
  replies = replies;
}
alone-IsSafe sender place client effects held replies = record { mailbox = held; replies = replies }
