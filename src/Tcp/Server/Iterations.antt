-- ===== src/Tcp/Server/Iterations.antt =====
-- When an iteration of process1's `main` takes a connection.
mod Tests
use communicate_core.Common.{
  ℕ, ◌≡◌, ◌⊎◌, ◌↔◌, inl, inr, refl, List, [], ◌∷◌, true, Bool-cases, Option, some, arith,
}
use communicate_core.Tcp.Accept.{watch, Server, server_round}
use communicate_core.Tcp.Accept.Watch.{Has, watch_lem}
use communicate_core.Tcp.Server.Defs.{Selected, failed, ready, fd_isset, left_set, main_iteration}

fd_isset-Has : (fd : ℕ) (fds : List ℕ) → (fd_isset fd fds ≡ true) ↔ Has fd fds
unfolding fd_isset
fd_isset-Has fd [] = ground arith
fd_isset-Has fd (x ∷ xs) = ground (arith, fd_isset-Has fd xs)

-- What the test of the server's bit finds.
abbrev pub IsConnecting : Server → Selected → Type 0
IsConnecting s (failed interrupted) = Unit {0}
IsConnecting s (ready left) = Has s.server_sock left

module _ (s : Server) (accepted : Option ℕ) where
  still_watched : fd_isset s.server_sock (watch s.server_sock s.group).set ≡ true
  still_watched =
      (fd_isset-Has s.server_sock (watch s.server_sock s.group).set).1
        ((watch_lem s.server_sock s.group s.server_sock).0.1 (inl refl))

  -- An iteration of `main` calls `accept`, and goes on as its result says, exactly if `select` left
  -- the server's socket in the set or failed for any reason, an interrupt included. Otherwise it
  -- changes nothing.
  pub main_iteration_lem :
      (selected : Selected)
      → (IsConnecting s selected
          × (main_iteration s selected accepted ≡ server_round s true accepted))
        ⊎ ((¬ IsConnecting s selected) × (main_iteration s selected accepted ≡ some s))
  unfolding main_iteration left_set server_round
  main_iteration_lem (failed interrupted) = inl (tt, rw still_watched refl)
  main_iteration_lem (ready left) = elim (Bool-cases (fd_isset s.server_sock left)) [
    | inl set ↦ inl ((fd_isset-Has s.server_sock left).0 set, rw set refl)
    | inr clear ↦
        inr (λ has. absurd (cc (clear, (fd_isset-Has s.server_sock left).1 has)), rw clear refl)
  ]
