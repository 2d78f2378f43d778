-- ===== src/Tcp/Server/Survivor.antt =====
-- A sending thread that outlives its client: `main` clears the exit flag of a slot that it gives
-- away, and the slot's last sending thread may not have read it yet.
mod Tests
use mathlib.Core.Path.{subst}
use communicate_core.Common.{
  ℕ, ◌<◌, ◌≡◌, refl, List, [], ◌∷◌, ◌++◌, true, some, arith, length, drop-length_append,
  get_elem-append, set-append,
}
use communicate_core.Tcp.State.{ClientInfo, Effect}
use communicate_core.Tcp.Receive.{closed, receive_round}
use communicate_core.Tcp.Send.{
  Place, working, waiting, leaving, gone, timed_out, send_check, send_round, set_exit_flag,
}
use communicate_core.Tcp.Session.{Session, Step, arrives, flags, checks, wakes, ends}
use communicate_core.Tcp.Accept.{Server}
use communicate_core.Tcp.Accept.Slots.{AllBusy, served, server_round-first}
use communicate_core.Tcp.Accept.Reuse.{hung_up}
use communicate_core.Tcp.Server.Defs.{
  ready, fd_isset, left_set, main_iteration, Role, receiver, sender, Phase, at, Thread, Process,
  spawned, alone, place_of, Move, iterates, runs, Moves, here, next,
}

pub fd_isset_first : (fd : ℕ) (fds : List ℕ) → fd_isset fd (fd ∷ fds) ≡ true
unfolding fd_isset
fd_isset_first fd fds = ground arith

module _ (server_sock : ℕ) (busy : List ClientInfo) (rest : List ClientInfo)
    (started : List ℕ) where
  -- The process with a client in the first slot that is not busy.
  abbrev pub with_client : ClientInfo → List Thread → List Effect → Process
  with_client c threads effects = record {
    server = record { server_sock = server_sock; group = busy ++ (c ∷ rest); started = started };
    threads = threads;
    effects = effects;
  }

  abbrev pub thread_of : Role → Phase → Thread
  thread_of role phase = record { slot = length busy; role = role; phase = phase }

  module _ (c : ClientInfo) (ths : List Thread) (effects : List Effect) where
    runs_first :
        (role : Role) (place : Place) (t : Session)
        → Step (alone role place c effects) t
        → Move
            (with_client c (thread_of role (at place) ∷ ths) effects)
            (with_client t.client (thread_of role (at (place_of role t)) ∷ ths) t.effects)
    runs_first role place t step =
        subst
          (λ g. Move (with_client c (thread_of role (at place) ∷ ths) effects) (record {
            server = record { server_sock = server_sock; group = g; started = started };
            threads = thread_of role (at (place_of role t)) ∷ ths;
            effects = t.effects;
          }))
          (set-append busy c t.client rest)
          (runs (with_client c (thread_of role (at place) ∷ ths) effects) 0 _ place c t refl refl
            (get_elem-append busy c rest) step)

    runs_second :
        (th : Thread) (role : Role) (place : Place) (t : Session)
        → Step (alone role place c effects) t
        → Move
            (with_client c (th ∷ thread_of role (at place) ∷ ths) effects)
            (with_client t.client (th ∷ thread_of role (at (place_of role t)) ∷ ths) t.effects)
    runs_second th role place t step =
        subst
          (λ g. Move (with_client c (th ∷ thread_of role (at place) ∷ ths) effects) (record {
            server = record { server_sock = server_sock; group = g; started = started };
            threads = th ∷ thread_of role (at (place_of role t)) ∷ ths;
            effects = t.effects;
          }))
          (set-append busy c t.client rest)
          (runs (with_client c (th ∷ thread_of role (at place) ∷ ths) effects) 1 _ place c t refl
            refl (get_elem-append busy c rest) step)

-- The threads of a slot that has a new client: the last client's sending thread among them, which
-- stands at `place`.
pub record IsShared (busy rest : List ClientInfo) (client : ClientInfo) (place : Place)
    (q : Process) (ths : List Thread) : Type 0 where
  pub group : q.server.group ≡ busy ++ (client ∷ rest)
  pub threads :
      q.threads
      ≡ record { slot = length busy; role = receiver; phase = at gone }
        ∷ record { slot = length busy; role = sender; phase = at place }
        ∷ (ths ++ spawned (length busy ∷ []))

-- All that a sending thread that is alone can do behind its wait is to read the flag.
step_reads :
    {s t : Session}
    → s.receiver ≡ gone
    → s.sender ≡ working
    → Step s t
    → t.sender ≡ send_check s.client
step_reads no_receiver works (arrives s r round allowed receives done) =
    absurd (cc (no_receiver, receives))
step_reads no_receiver works (flags s leaves) = absurd (cc (no_receiver, leaves))
step_reads no_receiver works (checks s is) = refl
step_reads no_receiver works (wakes s w sent waits done) = absurd (cc (works, waits))
step_reads no_receiver works (ends s leaves) = absurd (cc (works, leaves))

module _ (server_sock : ℕ) (busy rest : List ClientInfo) (started : List ℕ) (c : ClientInfo)
    (ths : List Thread) (effects : List Effect) (sock : ℕ) where
  abbrev i : ℕ
  i = length busy

  abbrev sends : Place → Thread
  sends place = record { slot = i; role = sender; phase = at place }

  abbrev receives : Place → Thread
  receives place = record { slot = i; role = receiver; phase = at place }

  abbrev out : List Effect
  out = effects ++ (Effect.disconnect c.client_sock ∷ [])

  abbrev flagged : ClientInfo
  flagged = record c { client_sock = 0; exit_flag = true }

  -- Both threads in their loop.
  abbrev pub both_run : Process
  both_run =
      with_client server_sock busy rest started c (receives working ∷ sends waiting ∷ ths) effects

  -- The receiving thread is gone, and the flag set.
  abbrev hung : Process
  hung = with_client server_sock busy rest started flagged (receives gone ∷ sends waiting ∷ ths) out

  hangs_up : Moves both_run hung
  unfolding receive_round set_exit_flag
  hangs_up =
      next
        (next here (
          runs_first server_sock busy rest started c (sends waiting ∷ ths) effects receiver working
            _ (arrives (alone receiver working c effects) closed _ tt refl refl)))
        (runs_first server_sock busy rest started (hung_up c) (sends waiting ∷ ths) out receiver
          leaving _ (flags (alone receiver leaving (hung_up c) out) refl))

  abbrev served_server : Server
  served_server = record {
    server_sock = server_sock;
    group = busy ++ (served sock c ∷ rest);
    started = started ++ (i ∷ []);
  }

  -- The new threads are there.
  abbrev served_process : List Thread → List Effect → Process
  served_process threads effs = record { server = served_server; threads = threads; effects = effs }

  accepted :
      AllBusy busy
      → 0 < sock
      → Move hung (served_process (receives gone ∷ sends waiting ∷ (ths ++ spawned (i ∷ []))) out)
  unfolding main_iteration left_set
  accepted b positive =
      subst
        (λ new.
          Move hung (served_process (receives gone ∷ sends waiting ∷ (ths ++ spawned new)) out))
        (drop-length_append started (i ∷ []))
        (iterates hung (ready (server_sock ∷ [])) (some sock) served_server positive (
          rw (fd_isset_first server_sock [])
            (server_round-first hung.server busy flagged rest sock refl b refl)))

  -- The connection of a client in the first slot that is not busy is closed while its sending
  -- thread waits. Its receiving thread clears the socket, sets the exit flag and is gone: a test of
  -- the flag by the sending thread would now lead it out of its loop, and nowhere else. But there is
  -- an order of the steps in which the server accepts a new connection before that thread is back
  -- from its wait. Then `main` has cleared the flag, and the test that the thread makes leads it into
  -- its next wait, and nowhere else: it goes on for the new client, beside the new threads of that
  -- slot.
  pub old_sender_stays :
      AllBusy busy
      → 0 < sock
      → Moves both_run hung
        × ((t : Session) → Step (alone sender working flagged out) t → t.sender ≡ leaving)
        × (back : Process) × Moves hung back
        × IsShared busy rest (served sock c) working back ths
        × ((t : Session)
            → Step (alone sender working (served sock c) back.effects) t
            → t.sender ≡ waiting)
        × (on : Process) × Move back on
        × IsShared busy rest (served sock c) waiting on ths
  unfolding send_round send_check
  old_sender_stays b positive = (
    hangs_up,
    λ t step. step_reads refl refl step,
    _,
    next (next here (accepted b positive)) (
        runs_second server_sock busy rest (started ++ (i ∷ [])) (served sock c)
          (ths ++ spawned (i ∷ [])) out (receives gone) sender waiting _
          (wakes (alone sender waiting (served sock c) out) timed_out [] refl refl)),
    record { group = refl; threads = refl },
    λ t step. step_reads refl refl step,
    _,
    runs_second server_sock busy rest (started ++ (i ∷ [])) (served sock c)
        (ths ++ spawned (i ∷ [])) (out ++ []) (receives gone) sender working _
        (checks (alone sender working (served sock c) (out ++ [])) refl),
    record { group = refl; threads = refl },
  )
