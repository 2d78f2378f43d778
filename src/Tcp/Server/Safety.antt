-- ===== src/Tcp/Server/Safety.antt =====
-- What the clients are sent, and how many threads receive from one.
pub mod Tests
use mathlib.Core.Path.{subst}
use native.Mathlib.Decide.{ℕ_discrete}
use communicate_core.Common.{
  ℕ, ◌≤◌, ◌≡◌, inl, refl, Bool, true, false, some, arith, length-replicate, set, get_elem?,
  if◌then◌else◌,
}
use communicate_core.Tcp.State.{buffer_size, ClientInfo}
use communicate_core.Tcp.Send.{Place, working, gone}
use communicate_core.Tcp.Session.{Session, Step}
use communicate_core.Tcp.Session.Mailbox.{HoldsAnswer, IsReply}
use communicate_core.Tcp.Session.Effects.{AllSent}
use communicate_core.Tcp.Session.Safety.{IsSafe, Step-IsSafe}
use communicate_core.Tcp.Accept.{Server}
use communicate_core.Tcp.Server.Defs.{
  main_iteration, Role, receiver, sender, starting, at, Thread, Process, empty_slot, start,
  after_main, after_start, alone, place_of, after_thread, Move, iterates, starts, runs, Moves, here,
  next,
}
use communicate_core.Tcp.Server.Threads.{
  is_active, active, taken_at, active-append, active_others, taken_at-get_elem, taken_at-set_self,
  taken_at-set_ne,
}
use communicate_core.Tcp.Server.Steps.{
  AllHold, AllHold-get_elem, AllHold-set, new_threads, IsIterated, server_round-IsIterated,
  alone-covered, alone-IsSafe,
}

-- Every mailbox is empty or holds an answer, what was sent are replies, and a slot has at most one
-- thread that receives, and none if it has no socket.
pub record IsServerSafe (p : Process) : Type 0 where
  pub mailboxes : AllHold p.server.group
  pub replies : AllSent IsReply p.effects
  pub receivers : (i : ℕ) → active i p.threads ≤ taken_at p.server.group i

after_main-IsServerSafe :
    (p : Process) (s : Server)
    → IsIterated p.server s
    → IsServerSafe p
    → IsServerSafe (after_main p s)
after_main-IsServerSafe p s iterated h = record {
  mailboxes = iterated.holds h.mailboxes;
  replies = h.replies;
  receivers = λ i.
      omega (
        arith,
        h.receivers i,
        iterated.taken i,
        active-append i p.threads (new_threads p.server s),
      );
}

started-le :
    (role : Role) (has_peer : Bool)
    → is_active role (at (if has_peer then working else gone)) ≤ is_active role starting
started-le receiver true = omega arith
started-le receiver false = omega arith
started-le sender true = omega arith
started-le sender false = omega arith

after_start-IsServerSafe :
    (p : Process) (k : ℕ) (th : Thread) (has_peer : Bool)
    → get_elem? p.threads k ≡ some th
    → th.phase ≡ starting
    → IsServerSafe p
    → IsServerSafe (after_start p k th has_peer)
after_start-IsServerSafe p k th has_peer e begins h = record {
  mailboxes = h.mailboxes;
  replies = h.replies;
  receivers = λ i.
      let (n, before, after) = active_others i p.threads k th e in
      ground (
        arith,
        h.receivers i,
        begins,
        before,
        started-le th.role has_peer,
        after (record th { phase = at (if has_peer then working else gone) }),
      );
}

module _ (p : Process) (k : ℕ) (th : Thread) (place : Place) (client : ClientInfo) (t : Session)
    (found : get_elem? p.threads k ≡ some th) (behind : th.phase ≡ at place)
    (served : get_elem? p.server.group th.slot ≡ some client)
    (step : Step (alone th.role place client p.effects) t) (h : IsServerSafe p) where
  held : HoldsAnswer client.shared
  held = AllHold-get_elem p.server.group th.slot client h.mailboxes served

  after : IsSafe t
  after = Step-IsSafe step (alone-IsSafe th.role place client p.effects held h.replies)

  abbrev moved : Thread
  moved = record th { phase = at (place_of th.role t) }

  here_after :
      active th.slot (set p.threads k moved)
      ≤ taken_at (set p.server.group th.slot t.client) th.slot
  here_after =
      let (n, before, changed) = active_others th.slot p.threads k th found in
      let limit = alone-covered th.role place client p.effects t step held n (
        ground (
          arith,
          h.receivers th.slot,
          before,
          behind,
          taken_at-get_elem p.server.group th.slot client served,
        )) in
      ground (
        arith,
        limit,
        changed moved,
        taken_at-set_self p.server.group th.slot client t.client served,
      )

  receivers_after :
      (i : ℕ)
      → active i (after_thread p k th t).threads ≤ taken_at (after_thread p k th t).server.group i
  receivers_after i = elim (ℕ_discrete th.slot i) [
    | yes same ↦
        subst
          (λ j. active j (set p.threads k moved) ≤ taken_at (set p.server.group th.slot t.client) j)
          same here_after
    | no other ↦
        let (n, before, changed) = active_others i p.threads k th found in
        ground (
          arith,
          other,
          h.receivers i,
          before,
          changed moved,
          taken_at-set_ne p.server.group th.slot i t.client other,
        )
  ]

  after_thread-IsServerSafe : IsServerSafe (after_thread p k th t)
  after_thread-IsServerSafe = record {
    mailboxes = AllHold-set p.server.group th.slot t.client h.mailboxes after.mailbox;
    replies = after.replies;
    receivers = receivers_after;
  }

Move-IsServerSafe : {p q : Process} → Move p q → IsServerSafe p → IsServerSafe q
unfolding main_iteration
Move-IsServerSafe (iterates p selected accepted s connection done) h =
    after_main-IsServerSafe p s (server_round-IsIterated p.server s _ accepted connection done) h
Move-IsServerSafe (starts p k th has_peer found begins) h =
    after_start-IsServerSafe p k th has_peer found begins h
Move-IsServerSafe (runs p k th place client t found behind served step) h =
    after_thread-IsServerSafe p k th place client t found behind served step h

Moves-IsServerSafe : {p q : Process} → Moves p q → IsServerSafe p → IsServerSafe q
Moves-IsServerSafe here h = h
Moves-IsServerSafe (next before move) h = Move-IsServerSafe move (Moves-IsServerSafe before h)

start-IsServerSafe : (server_sock : ℕ) → IsServerSafe (start server_sock)
start-IsServerSafe server_sock = record {
  mailboxes = (empty, (empty, (empty, (empty, (empty, tt)))));
  replies = tt;
  receivers = λ i. omega arith;
}
  where
    empty : HoldsAnswer empty_slot.shared
    empty = record { whole = length-replicate {A = ℕ} buffer_size 0; holds = inl refl }

-- In every order of the steps of `main` and of all threads, those of a slot's last clients that
-- still run included, and whatever arrives: every mailbox is empty or holds one whole answer, every
-- message that is sent is empty or is such an answer, and at most one thread receives from a slot's
-- socket, none if the slot has none.
pub server_is_safe : (server_sock : ℕ) (p : Process) → Moves (start server_sock) p → IsServerSafe p
server_is_safe server_sock p moves = Moves-IsServerSafe moves (start-IsServerSafe server_sock)
