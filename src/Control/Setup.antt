-- ===== src/Control/Setup.antt =====
-- `main` of process3.c before its loop: the two pipes, and what `select` is to watch.
use communicate_core.Common.{
  ℕ, ◌+◌, ◌<◌, ◌≡◌, ◌⊎◌, List, [], ◌∷◌, Option, some, ◌>>=◌, ltb, if◌then◌else◌, arith,
}

-- The two ends of a pipe, `iFd[0]` and `iFd[1]`.
pub record Ends : Type 0 where
  pub reads : ℕ
  pub writes : ℕ

-- `PIPE_INFO`. The third pair is nowhere used.
pub record PipeInfo : Type 0 where
  pub ctrl_fd : Ends
  pub cmd_fd : Ends

-- The two calls of `pipe`, none if the program exits.
unfoldable pub make_pipes : Option Ends → Option Ends → Option PipeInfo
make_pipes first second = do
  cmd_fd ← first
  ctrl_fd ← second
  some (record { ctrl_fd = ctrl_fd; cmd_fd = cmd_fd })

-- `maxfd`
unfoldable pub max_fd_of : PipeInfo → ℕ
max_fd_of info =
    (if ltb info.ctrl_fd.reads info.cmd_fd.reads then info.cmd_fd.reads else info.ctrl_fd.reads) + 1

-- Both `FD_SET`.
unfoldable pub watched_ends : PipeInfo → List ℕ
watched_ends info = info.ctrl_fd.reads ∷ info.cmd_fd.reads ∷ []

abbrev pub AllLt : ℕ → List ℕ → Type 0
AllLt bound [] = Unit {0}
AllLt bound (x ∷ xs) = (x < bound) × AllLt bound xs

abbrev pub HasLast : ℕ → List ℕ → Type 0
HasLast bound [] = ⊥
HasLast bound (x ∷ xs) = (x + 1 ≡ bound) ⊎ HasLast bound xs

-- Every watched descriptor is below the first argument of `select`, and one of them is the highest
-- below it.
pub record IsCoveredBy (bound : ℕ) (fds : List ℕ) : Type 0 where
  pub below : AllLt bound fds
  pub tight : HasLast bound fds

pub watched_ends-IsCoveredBy : (info : PipeInfo) → IsCoveredBy (max_fd_of info) (watched_ends info)
unfolding max_fd_of watched_ends
watched_ends-IsCoveredBy info = record { below = ground arith; tight = ground arith }
