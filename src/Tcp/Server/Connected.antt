-- ===== src/Tcp/Server/Connected.antt =====
-- From a new connection to the answer of its first request: `main`, and both threads of the slot.
mod Tests
use mathlib.Core.Path.{subst}
use communicate_core.Common.{
  ℕ, suc, ◌+◌, ◌≤◌, ◌<◌, ◌≡◌, refl, List, [], ◌∷◌, ◌++◌, map, true, some, arith, length, set,
  drop-length_append, get_elem-append, set-append, get_elem-append_next, set-append_next,
  short_to_int,
}
use communicate_core.Memory.{IsBytes}
use communicate_core.Frame.Check.Verdict.{stated_size}
use communicate_core.Handler.Dispatch.{expected_log}
use communicate_core.Tcp.State.{buffer_size, ClientInfo, Effect}
use communicate_core.Tcp.Receive.{message}
use communicate_core.Tcp.Receive.Rounds.{
  received, command_of, IsOverrunning, receive_round-IsAnswered,
}
use communicate_core.Tcp.Send.{Place, working, waiting, woken, send_check}
use communicate_core.Tcp.Session.{Session, IsArrival, Step, arrives, checks, wakes}
use communicate_core.Tcp.Session.Mailbox.{
  HoldsAnswer, receive_round-IsKept, taken, send_round-taken,
}
use communicate_core.Tcp.Session.Answers.{IsReplyTo, answered-IsReplyTo}
use communicate_core.Tcp.Accept.Slots.{AllBusy, served, server_round-first}
use communicate_core.Tcp.Server.Defs.{
  ready, left_set, main_iteration, receiver, sender, Phase, starting, at, Thread, Process, spawned,
  alone, Move, iterates, starts, runs, Moves, here, next,
}
use communicate_core.Tcp.Server.Survivor.{with_client, fd_isset_first}

module _ (server_sock : ℕ) (busy rest : List ClientInfo) (started : List ℕ) (ts : List Thread) where
  abbrev receives : Phase → Thread
  receives phase = record { slot = length busy; role = receiver; phase = phase }

  abbrev sends : Phase → Thread
  sends phase = record { slot = length busy; role = sender; phase = phase }

  -- The slot's client, and its two threads behind all others.
  abbrev state : ClientInfo → Phase → Phase → List Effect → Process
  state c first second effects =
      with_client server_sock busy rest started c (ts ++ (receives first ∷ sends second ∷ []))
        effects

  module _ (c : ClientInfo) (effects : List Effect) where
    receiver_starts :
        (second : Phase)
        → Move (state c starting second effects) (state c (at working) second effects)
    receiver_starts second =
        subst
          (λ l.
            Move (state c starting second effects)
              (with_client server_sock busy rest started c l effects))
          (set-append ts (receives starting) (receives (at working)) (sends second ∷ []))
          (starts (state c starting second effects) (length ts) (receives starting) true
            (get_elem-append ts (receives starting) (sends second ∷ [])) refl)

    sender_starts :
        (first : Phase) → Move (state c first starting effects) (state c first (at working) effects)
    sender_starts first =
        subst
          (λ l.
            Move (state c first starting effects)
              (with_client server_sock busy rest started c l effects))
          (set-append_next ts (receives first) (sends starting) (sends (at working)) [])
          (starts (state c first starting effects) (suc (length ts)) (sends starting) true
            (get_elem-append_next ts (receives first) (sends starting) []) refl)

    receiver_runs :
        (place : Place) (second : Phase) (t : Session)
        → Step (alone receiver place c effects) t
        → Move (state c (at place) second effects) (state t.client (at t.receiver) second t.effects)
    receiver_runs place second t step =
        subst
          (λ l.
            Move (state c (at place) second effects)
              (with_client server_sock busy rest started t.client l t.effects))
          (set-append ts (receives (at place)) (receives (at t.receiver)) (sends second ∷ []))
          (subst
            (λ g. Move (state c (at place) second effects) (record {
              server = record { server_sock = server_sock; group = g; started = started };
              threads =
                  set (ts ++ (receives (at place) ∷ sends second ∷ [])) (length ts)
                    (receives (at t.receiver));
              effects = t.effects;
            }))
            (set-append busy c t.client rest)
            (runs (state c (at place) second effects) (length ts) (receives (at place)) place c t
              (get_elem-append ts (receives (at place)) (sends second ∷ [])) refl
              (get_elem-append busy c rest) step))

    sender_runs :
        (first : Phase) (place : Place) (t : Session)
        → Step (alone sender place c effects) t
        → Move (state c first (at place) effects) (state t.client first (at t.sender) t.effects)
    sender_runs first place t step =
        subst
          (λ l.
            Move (state c first (at place) effects)
              (with_client server_sock busy rest started t.client l t.effects))
          (set-append_next ts (receives first) (sends (at place)) (sends (at t.sender)) [])
          (subst
            (λ g. Move (state c first (at place) effects) (record {
              server = record { server_sock = server_sock; group = g; started = started };
              threads =
                  set (ts ++ (receives first ∷ sends (at place) ∷ [])) (suc (length ts))
                    (sends (at t.sender));
              effects = t.effects;
            }))
            (set-append busy c t.client rest)
            (runs (state c first (at place) effects) (suc (length ts)) (sends (at place)) place c t
              (get_elem-append_next ts (receives first) (sends (at place)) []) refl
              (get_elem-append busy c rest) step))

module _ (server_sock : ℕ) (busy rest : List ClientInfo) (started : List ℕ) (ts : List Thread)
    (c : ClientInfo) (effects : List Effect) (sock : ℕ) where
  -- Behind the connection.
  abbrev now : List ℕ
  now = started ++ (length busy ∷ [])

  connects :
      AllBusy busy
      → c.client_sock ≡ 0
      → 0 < sock
      → Move
          (with_client server_sock busy rest started c ts effects)
          (state server_sock busy rest now ts (served sock c) starting starting effects)
  unfolding main_iteration left_set spawned
  connects b free positive =
      subst
        (λ new.
          Move (with_client server_sock busy rest started c ts effects)
            (with_client server_sock busy rest now (served sock c) (ts ++ spawned new) effects))
        (drop-length_append started (length busy ∷ []))
        (iterates (with_client server_sock busy rest started c ts effects)
          (ready (server_sock ∷ [])) (some sock) _ positive
          (rw (fd_isset_first server_sock []) (
            server_round-first (with_client server_sock busy rest started c ts effects).server busy
              c rest sock refl b free)))

  -- Both threads run, and the sending one waits.
  attends :
      AllBusy busy
      → c.client_sock ≡ 0
      → 0 < sock
      → Moves
          (with_client server_sock busy rest started c ts effects)
          (state server_sock busy rest now ts (served sock c) (at working) (at waiting) effects)
  unfolding send_check
  attends b free positive =
      next
        (next
          (next (next here (connects b free positive))
            (receiver_starts server_sock busy rest now ts (served sock c) effects starting))
          (sender_starts server_sock busy rest now ts (served sock c) effects (at working)))
        (sender_runs server_sock busy rest now ts (served sock c) effects (at working) working _
          (checks (alone sender working (served sock c) effects) refl))

  -- A connection is accepted while some slot has no socket, whatever other threads there are. There is
  -- an order of the steps in which both threads of the first such slot start, a request of the stated
  -- size arrives, with a command that is not one of the three that overrun, and the last thing that
  -- goes out is one message on the new socket: the whole answer of the command.
  pub connected_answered :
      (bytes : List ℕ)
      → AllBusy busy
      → c.client_sock ≡ 0
      → 0 < sock
      → HoldsAnswer c.shared
      → IsBytes bytes
      → 11 ≤ length bytes
      → length bytes ≤ buffer_size
      → stated_size (received bytes) ≡ length bytes
      → ¬ IsOverrunning (short_to_int (command_of bytes))
      → (q : Process) × (reply : List ℕ) × Moves
          (with_client server_sock busy rest started c ts effects)
          q
        × IsReplyTo bytes reply
        × (q.effects
            ≡ (effects
                ++ (map Effect.log (expected_log (short_to_int (command_of bytes)) true)
                    ++ (Effect.signal ∷ [])))
              ++ (Effect.send sock reply ∷ []))
  connected_answered bytes b free positive held are_bytes long fits same fine =
      let client = served sock c in
      let (round, done, a, checked) =
        receive_round-IsAnswered client bytes are_bytes fits long same fine in
      let arrival : IsArrival (message bytes) = (are_bytes, fits, omega arith) in
      let kept = receive_round-IsKept client (message bytes) round arrival held done in
      let out = effects ++ round.effects in
      let sent = Effect.send round.client.client_sock (taken round.client.shared) ∷ [] in
      (
        _,
        taken round.client.shared,
        next
            (next (attends b free positive) (
              receiver_runs server_sock busy rest now ts client effects working (at waiting) _ (
                arrives (alone receiver working client effects) (message bytes) round arrival refl
                  done)))
            (sender_runs server_sock busy rest now ts round.client out _ waiting _ (
              wakes (alone sender waiting round.client out) woken sent refl
                (send_round-taken round.client kept.mailbox))),
        answered-IsReplyTo client bytes round kept.mailbox a,
        rw (a.effects, a.same_sock) refl,
      )
