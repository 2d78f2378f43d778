-- ===== src/Control/Rounds.antt =====
-- An iteration of process3's main loop.
use mathlib.Core.List.{append_assoc}
use communicate_core.Common.{
  ℕ, ◌-◌, ◌≡◌, refl, ap, ap₂, ◌∙◌, List, ◌++◌, Bool, true, false, some, if◌then◌else◌, length, drop,
}
use communicate_core.Control.Defs.{
  data_size, Control, Selected, select_error, ready, read_cmd, read_ctrl, main_round,
}
use communicate_core.Control.Reads.{read_pipe-IsRead}

-- The bytes of a round of either channel: no byte of a pipe is lost, doubled or moved.
pub record IsRound (c next : Control) : Type 0 where
  pub whole : length next.buffer ≡ data_size
  pub cmd : next.cmd_read ++ next.cmd_pipe ≡ c.cmd_read ++ c.cmd_pipe
  pub ctrl : next.ctrl_read ++ next.ctrl_pipe ≡ c.ctrl_read ++ c.ctrl_pipe

record IsReadCmd (c next : Control) (bit : Bool) : Type 0 where
  whole : length next.buffer ≡ data_size
  same : next.cmd_read ++ next.cmd_pipe ≡ c.cmd_read ++ c.cmd_pipe
  other_pipe : next.ctrl_pipe ≡ c.ctrl_pipe
  other_read : next.ctrl_read ≡ c.ctrl_read
  left : next.cmd_pipe ≡ (if bit then drop (data_size - 1) c.cmd_pipe else c.cmd_pipe)

record IsReadCtrl (c next : Control) (bit : Bool) : Type 0 where
  whole : length next.buffer ≡ data_size
  same : next.ctrl_read ++ next.ctrl_pipe ≡ c.ctrl_read ++ c.ctrl_pipe
  other_pipe : next.cmd_pipe ≡ c.cmd_pipe
  other_read : next.cmd_read ≡ c.cmd_read
  left : next.ctrl_pipe ≡ (if bit then drop (data_size - 1) c.ctrl_pipe else c.ctrl_pipe)

read_cmd-IsReadCmd :
    (c : Control) (bit : Bool)
    → length c.buffer ≡ data_size
    → (next : Control) × (read_cmd c bit ≡ some next) × IsReadCmd c next bit
unfolding read_cmd
read_cmd-IsReadCmd c false whole = (
  c,
  refl,
  record { whole = whole; same = refl; other_pipe = refl; other_read = refl; left = refl },
)
read_cmd-IsReadCmd c true whole =
    let (r, done, is) = read_pipe-IsRead c.buffer c.cmd_pipe whole in
    (
      record c { buffer = r.buffer; cmd_pipe = r.pipe; cmd_read = c.cmd_read ++ r.bytes },
      rw done refl,
      record {
        whole = is.same_length ∙ whole;
        same = append_assoc c.cmd_read r.bytes r.pipe ∙ ap (λ xs. c.cmd_read ++ xs) is.splits;
        other_pipe = refl;
        other_read = refl;
        left = is.rest;
      },
    )

read_ctrl-IsReadCtrl :
    (c : Control) (bit : Bool)
    → length c.buffer ≡ data_size
    → (next : Control) × (read_ctrl c bit ≡ some next) × IsReadCtrl c next bit
unfolding read_ctrl
read_ctrl-IsReadCtrl c false whole = (
  c,
  refl,
  record { whole = whole; same = refl; other_pipe = refl; other_read = refl; left = refl },
)
read_ctrl-IsReadCtrl c true whole =
    let (r, done, is) = read_pipe-IsRead c.buffer c.ctrl_pipe whole in
    (
      record c { buffer = r.buffer; ctrl_pipe = r.pipe; ctrl_read = c.ctrl_read ++ r.bytes },
      rw done refl,
      record {
        whole = is.same_length ∙ whole;
        same = append_assoc c.ctrl_read r.bytes r.pipe ∙ ap (λ xs. c.ctrl_read ++ xs) is.splits;
        other_pipe = refl;
        other_read = refl;
        left = is.rest;
      },
    )

-- The pipes behind a round.
abbrev pub cmd_left : Selected → Control → List ℕ
cmd_left select_error c = c.cmd_pipe
cmd_left (ready cmd ctrl) c = if cmd then drop (data_size - 1) c.cmd_pipe else c.cmd_pipe

abbrev pub ctrl_left : Selected → Control → List ℕ
ctrl_left select_error c = c.ctrl_pipe
ctrl_left (ready cmd ctrl) c = if ctrl then drop (data_size - 1) c.ctrl_pipe else c.ctrl_pipe

pub main_round-IsRound :
    (c : Control) (sel : Selected)
    → length c.buffer ≡ data_size
    → (next : Control) × (main_round c sel ≡ some next)
      × IsRound c next
      × (next.cmd_pipe ≡ cmd_left sel c)
      × (next.ctrl_pipe ≡ ctrl_left sel c)
unfolding main_round
main_round-IsRound c select_error whole =
    (c, refl, record { whole = whole; cmd = refl; ctrl = refl }, refl, refl)
main_round-IsRound c (ready cmd ctrl) whole =
    let (mid, first, is) = read_cmd-IsReadCmd c cmd whole in
    let (next, second, is') = read_ctrl-IsReadCtrl mid ctrl is.whole in
    (
      next,
      rw first second,
      record {
        whole = is'.whole;
        cmd = ap₂ (λ xs ys. xs ++ ys) is'.other_read is'.other_pipe ∙ is.same;
        ctrl = is'.same ∙ ap₂ (λ xs ys. xs ++ ys) is.other_read is.other_pipe;
      },
      is'.other_pipe ∙ is.left,
      is'.left ∙ ap (λ xs. if ctrl then drop (data_size - 1) xs else xs) is.other_pipe,
    )
