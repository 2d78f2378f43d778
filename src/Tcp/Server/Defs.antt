-- ===== src/Tcp/Server/Defs.antt =====
-- process1 as a whole: `main` of process1.c and all threads of all slots, in any order of their
-- steps. A slot may have threads of several clients, since a slot is given away when its socket is
-- cleared, whether its threads have ended or not.
use communicate_core.Common.{
  ℕ, ◌<◌, ◌≡◌, List, [], ◌∷◌, ◌++◌, Bool, false, Option, none, some, ◌==◌, ◌||◌, if◌then◌else◌,
  length, drop, set, get_elem?, replicate,
}
use communicate_core.Tcp.State.{buffer_size, ClientInfo, Effect}
use communicate_core.Tcp.Send.{Place, working, gone}
use communicate_core.Tcp.Session.{Session, Step}
use communicate_core.Tcp.Accept.{max_clients, Watched, watch, Server, server_round}

-- The return of `select`: an error, or the set that it leaves.
pub data Selected : Type 0 where
  failed : (interrupted : Bool) → Selected
  ready : (left : List ℕ) → Selected

-- `FD_ISSET`
unfoldable pub fd_isset : ℕ → List ℕ → Bool
fd_isset fd [] = false
fd_isset fd (x ∷ xs) = (fd == x) || fd_isset fd xs

-- On an error the set is as it was.
unfoldable pub left_set : Watched → Selected → List ℕ
left_set w (failed interrupted) = w.set
left_set w (ready left) = left

-- A whole iteration of the loop, for the returns of `select` and of `accept`, if it is called. An
-- error of `select` is at most printed.
unfoldable pub main_iteration : Server → Selected → Option ℕ → Option Server
main_iteration s selected accepted =
    let w = watch s.server_sock s.group in
    server_round s (fd_isset s.server_sock (left_set w selected)) accepted

pub data Role : Type 0 where
  receiver : Role
  sender : Role

-- A thread before `getpeername`, and behind it.
pub data Phase : Type 0 where
  starting : Phase
  at : Place → Phase

pub record Thread : Type 0 where
  pub slot : ℕ
  pub role : Role
  pub phase : Phase

pub record Process : Type 0 where
  pub server : Server
  pub threads : List Thread
  pub effects : List Effect

-- The two `pthread_create` of each slot.
unfoldable pub spawned : List ℕ → List Thread
spawned [] = []
spawned (i ∷ is) =
    record { slot = i; role = receiver; phase = starting }
    ∷ record { slot = i; role = sender; phase = starting }
    ∷ spawned is

-- A slot that was never used.
abbrev pub empty_slot : ClientInfo
empty_slot = record {
  client_sock = 0;
  exit_flag = false;
  shared = record { bytes = replicate buffer_size 0; data_size = 0; cmd = 0 };
}

-- `main` before its loop.
abbrev pub start : ℕ → Process
start server_sock = record {
  server = record {
    server_sock = server_sock;
    group = replicate max_clients empty_slot;
    started = [];
  };
  threads = [];
  effects = [];
}

abbrev pub after_main : Process → Server → Process
after_main p s = record p {
  server = s;
  threads = p.threads ++ spawned (drop (length p.server.started) s.started);
}

-- Without the peer's address a thread ends at once.
abbrev pub after_start : Process → ℕ → Thread → Bool → Process
after_start p k th has_peer = record p {
  threads = set p.threads k (record th { phase = at (if has_peer then working else gone) });
}

-- A thread and the record of its slot, as a session in which no other thread is.
abbrev pub alone : Role → Place → ClientInfo → List Effect → Session
alone receiver place client effects = record {
  client = client;
  receiver = place;
  sender = gone;
  effects = effects;
}
alone sender place client effects = record {
  client = client;
  receiver = gone;
  sender = place;
  effects = effects;
}

abbrev pub place_of : Role → Session → Place
place_of receiver s = s.receiver
place_of sender s = s.sender

abbrev pub after_thread : Process → ℕ → Thread → Session → Process
after_thread p k th t = record {
  server = record p.server { group = set p.server.group th.slot t.client };
  threads = set p.threads k (record th { phase = at (place_of th.role t) });
  effects = t.effects;
}

-- What `accept` may give: not the descriptor of a standard stream.
abbrev pub IsConnection : Option ℕ → Type 0
IsConnection none = Unit {0}
IsConnection (some sock) = 0 < sock

pub data Move : Process → Process → Type 0 where
  iterates :
      (p : Process) (selected : Selected) (accepted : Option ℕ) (s : Server)
      → IsConnection accepted
      → main_iteration p.server selected accepted ≡ some s
      → Move p (after_main p s)
  starts :
      (p : Process) (k : ℕ) (th : Thread) (has_peer : Bool)
      → get_elem? p.threads k ≡ some th
      → th.phase ≡ starting
      → Move p (after_start p k th has_peer)
  runs :
      (p : Process) (k : ℕ) (th : Thread) (place : Place) (client : ClientInfo) (t : Session)
      → get_elem? p.threads k ≡ some th
      → th.phase ≡ at place
      → get_elem? p.server.group th.slot ≡ some client
      → Step (alone th.role place client p.effects) t
      → Move p (after_thread p k th t)

pub data Moves (p : Process) : Process → Type 0 where
  here : Moves p p
  next : {q r : Process} → Moves p q → Move q r → Moves p r
