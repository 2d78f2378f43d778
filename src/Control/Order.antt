-- ===== src/Control/Order.antt =====
-- The two channels of process3, in every order of the threads' steps.
mod Tests
use mathlib.Core.Option.{some-injective}
use mathlib.Core.List.{append_assoc, append-nil}
use communicate_core.Common.{
  ℕ, ◌+◌, ◌-◌, ◌≡◌, refl, sym, ◌∙◌, List, [], ◌∷◌, ◌++◌, some, arith, length,
}
use communicate_core.Control.Defs.{
  data_size, Received, timeout, failed, message, forward, Control, Selected, main_round,
}
use communicate_core.Control.Rounds.{IsRound, main_round-IsRound}

-- process3 with what arrived on its two sockets so far.
pub record System : Type 0 where
  pub control : Control
  pub cmd_sent : List ℕ
  pub ctrl_sent : List ℕ

abbrev pub start : List ℕ → System
start buffer = record {
  control = record {
    buffer = buffer;
    cmd_pipe = [];
    ctrl_pipe = [];
    cmd_read = [];
    ctrl_read = [];
  };
  cmd_sent = [];
  ctrl_sent = [];
}

abbrev pub bytes_of : Received → List ℕ
bytes_of timeout = []
bytes_of failed = []
bytes_of (message bytes) = bytes

abbrev pub cmd_arrived : System → Received → System
cmd_arrived s r = record {
  control = record s.control { cmd_pipe = forward r s.control.cmd_pipe };
  cmd_sent = s.cmd_sent ++ bytes_of r;
  ctrl_sent = s.ctrl_sent;
}

abbrev pub ctrl_arrived : System → Received → System
ctrl_arrived s r = record {
  control = record s.control { ctrl_pipe = forward r s.control.ctrl_pipe };
  cmd_sent = s.cmd_sent;
  ctrl_sent = s.ctrl_sent ++ bytes_of r;
}

-- A message that arrives between the two reads of an iteration stands in the order before it or
-- behind it: a read of one pipe does not see the other.
pub data Step : System → System → Type 0 where
  cmd_arrives : (s : System) (r : Received) → Step s (cmd_arrived s r)
  ctrl_arrives : (s : System) (r : Received) → Step s (ctrl_arrived s r)
  reads :
      (s : System) (sel : Selected) (next : Control)
      → main_round s.control sel ≡ some next
      → Step s (record s { control = next })

pub data Reach (s : System) : System → Type 0 where
  here : Reach s s
  next : {t u : System} → Reach s t → Step t u → Reach s u

pub record IsOrdered (s : System) : Type 0 where
  pub whole : length s.control.buffer ≡ data_size
  pub cmd : s.control.cmd_read ++ s.control.cmd_pipe ≡ s.cmd_sent
  pub ctrl : s.control.ctrl_read ++ s.control.ctrl_pipe ≡ s.ctrl_sent

forward_lem : (r : Received) (pipe : List ℕ) → forward r pipe ≡ pipe ++ bytes_of r
unfolding forward
forward_lem timeout pipe = sym (append-nil pipe)
forward_lem failed pipe = sym (append-nil pipe)
forward_lem (message []) pipe = sym (append-nil pipe)
forward_lem (message (x ∷ xs)) pipe = ground arith

grown :
    (read pipe sent : List ℕ) (r : Received)
    → read ++ pipe ≡ sent
    → read ++ forward r pipe ≡ sent ++ bytes_of r
grown read pipe sent r e =
    rw (forward_lem r pipe, sym e) (sym (append_assoc read pipe (bytes_of r)))

Step-IsOrdered : {s t : System} → Step s t → IsOrdered s → IsOrdered t
Step-IsOrdered (cmd_arrives s r) h = record {
  whole = h.whole;
  cmd = grown s.control.cmd_read s.control.cmd_pipe s.cmd_sent r h.cmd;
  ctrl = h.ctrl;
}
Step-IsOrdered (ctrl_arrives s r) h = record {
  whole = h.whole;
  cmd = h.cmd;
  ctrl = grown s.control.ctrl_read s.control.ctrl_pipe s.ctrl_sent r h.ctrl;
}
Step-IsOrdered (reads s sel after done) h =
    let (found, done', is, left, left') = main_round-IsRound s.control sel h.whole in
    let same = some-injective found after (sym done' ∙ done) in
    rw (sym same) (record { whole = is.whole; cmd = is.cmd ∙ h.cmd; ctrl = is.ctrl ∙ h.ctrl })

Reach-IsOrdered : {s t : System} → Reach s t → IsOrdered s → IsOrdered t
Reach-IsOrdered here h = h
Reach-IsOrdered (next before step) h = Step-IsOrdered step (Reach-IsOrdered before h)

-- In every order of the steps of the three threads, on each of the two channels: what the main loop
-- has read, and behind it what is in the pipe, is exactly what arrived on the socket, in its order;
-- and the main loop's next iteration does not leave its buffer, whatever `select` returns.
pub nothing_lost :
    (buffer : List ℕ) (s : System) (sel : Selected)
    → length buffer ≡ data_size
    → Reach (start buffer) s
    → IsOrdered s
      × ((after : Control) × (main_round s.control sel ≡ some after) × IsRound s.control after)
nothing_lost buffer s sel whole reached =
    let ordered = Reach-IsOrdered reached (record { whole = whole; cmd = refl; ctrl = refl }) in
    let (after, done, is, left, left') = main_round-IsRound s.control sel ordered.whole in
    (ordered, (after, done, is))
