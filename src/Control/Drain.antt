-- ===== src/Control/Drain.antt =====
-- process3's main loop when nothing more arrives.
mod Tests
use mathlib.Core.List.{append-nil}
use communicate_core.Common.{
  ℕ, zero, suc, ◌+◌, ◌-◌, ◌*◌, ◌≤◌, ◌≡◌, refl, sym, ◌∙◌, List, [], ◌∷◌, ◌++◌, true, Option, some,
  ◌>>=◌, arith, ltb, if◌then◌else◌, length, length-drop, drop,
}
use communicate_core.Control.Defs.{data_size, Control, Selected, ready, main_round}
use communicate_core.Control.Rounds.{main_round-IsRound}

-- `select` when nothing arrives: a pipe is ready if there is something in it.
abbrev pub selected : Control → Selected
selected c = ready (ltb 0 (length c.cmd_pipe)) (ltb 0 (length c.ctrl_pipe))

abbrev pub rounds : ℕ → Control → Option Control
rounds zero c = some c
rounds (suc n) c = main_round c (selected c) >>= rounds n

pub record IsDrained (c last : Control) : Type 0 where
  pub cmd_empty : last.cmd_pipe ≡ []
  pub ctrl_empty : last.ctrl_pipe ≡ []
  pub cmd_read : last.cmd_read ≡ c.cmd_read ++ c.cmd_pipe
  pub ctrl_read : last.ctrl_read ≡ c.ctrl_read ++ c.ctrl_pipe

empty_of_length : (xs : List ℕ) → length xs ≤ 0 → xs ≡ []
empty_of_length [] h = refl
empty_of_length (x ∷ xs) h = absurd (omega arith)

left-le :
    (n : ℕ) (xs ys : List ℕ)
    → length xs ≤ (data_size - 1) * suc n
    → ys ≡ (if ltb 0 (length xs) then drop (data_size - 1) xs else xs)
    → length ys ≤ (data_size - 1) * n
left-le n [] ys h e = rw e (omega arith)
left-le n (x ∷ xs) ys h e =
    rw (e, positive (length xs)) (omega (arith, length-drop (data_size - 1) (x ∷ xs)))
  where
    positive : (m : ℕ) → ltb 0 (suc m) ≡ true
    positive m = ground arith

-- If nothing more arrives, as many iterations of the main loop as the longer pipe has pieces of
-- `DATA_SIZE - 1` bytes leave both pipes empty, and have read exactly what was in each, in its
-- order.
pub rounds-IsDrained :
    (n : ℕ) (c : Control)
    → length c.buffer ≡ data_size
    → length c.cmd_pipe ≤ (data_size - 1) * n
    → length c.ctrl_pipe ≤ (data_size - 1) * n
    → (last : Control) × (rounds n c ≡ some last) × IsDrained c last
rounds-IsDrained zero c whole h k =
    let cmd = empty_of_length c.cmd_pipe (omega arith) in
    let ctrl = empty_of_length c.ctrl_pipe (omega arith) in
    (
      c,
      refl,
      record {
        cmd_empty = cmd;
        ctrl_empty = ctrl;
        cmd_read = rw cmd (sym (append-nil c.cmd_read));
        ctrl_read = rw ctrl (sym (append-nil c.ctrl_read));
      },
    )
rounds-IsDrained (suc n) c whole h k =
    let (mid, done, is, cmd, ctrl) = main_round-IsRound c (selected c) whole in
    let (last, rest, drained) =
      rounds-IsDrained n mid is.whole (left-le n c.cmd_pipe mid.cmd_pipe h cmd)
        (left-le n c.ctrl_pipe mid.ctrl_pipe k ctrl) in
    (
      last,
      rw done rest,
      record {
        cmd_empty = drained.cmd_empty;
        ctrl_empty = drained.ctrl_empty;
        cmd_read = drained.cmd_read ∙ is.cmd;
        ctrl_read = drained.ctrl_read ∙ is.ctrl;
      },
    )
