-- ===== src/Sensor/Collector/Rounds.antt =====
-- An iteration of the collector's outer loop, and what it keeps.
pub mod Tests
use communicate_core.Sensor.Loop.{fd_loop-kept}
use communicate_core.Common.{
  ℕ, ◌+◌, ◌≤◌, ◌≡◌, refl, ◌∙◌, List, [], ◌∷◌, Bool, Option, none, some, ◌==◌, ltb, if◌then◌else◌,
  arith, length, Bool-cases, inl, inr,
}
use communicate_core.Memory.{IsBytes}
use communicate_core.Sensor.Collector.Defs.{
  Collector, Outside, fd_clear, drop_connection, accept_connection, receive_from, serve_fd,
  serve_fds, Selected, select_error, ready, collector_round,
}
use communicate_core.Sensor.Collector.Frames.{
  IsWell, receive_size, collected, collect_frame-collected, collected-IsWell,
}

-- What `udsRecvMsg` may give: bytes, no more than the buffer takes.
pub record IsSane (outside : Outside) : Type 0 where
  pub messages :
      (fd : ℕ) (bytes : List ℕ)
      → outside.receives fd ≡ some bytes
      → IsBytes bytes × (length bytes ≤ receive_size)

abbrev pub AllLe : ℕ → List ℕ → Type 0
AllLe m [] = Unit {0}
AllLe m (x ∷ xs) = (x ≤ m) × AllLe m xs

-- No descriptor of the set is above the maximum, which is the bound of the loop.
abbrev pub IsCovered : Collector → Type 0
IsCovered c = AllLe c.max_fd c.master_set

pub AllLe-mono : (m n : ℕ) (xs : List ℕ) → m ≤ n → AllLe m xs → AllLe n xs
AllLe-mono m n [] h a = tt
AllLe-mono m n (x ∷ xs) h a = (omega arith, AllLe-mono m n xs h a.1)

pub fd_clear-AllLe : (m fd : ℕ) (xs : List ℕ) → AllLe m xs → AllLe m (fd_clear fd xs)
unfolding fd_clear
fd_clear-AllLe m fd [] a = tt
fd_clear-AllLe m fd (x ∷ xs) a = ground (arith, fd_clear-AllLe m fd xs a.1)

-- The accepted socket, if there is one, is at most `m`.
abbrev pub AcceptedLe : ℕ → Option ℕ → Type 0
AcceptedLe m none = Unit {0}
AcceptedLe m (some sock) = sock ≤ m

-- What an iteration keeps: all of it but the descriptors below the bound.
pub record IsKept (m : ℕ) (c next : Collector) : Type 0 where
  pub well : IsWell next
  pub covered : IsCovered next
  pub bounded : next.max_fd ≤ m
  pub grows : c.max_fd ≤ next.max_fd
  pub same_server : next.server_sock ≡ c.server_sock

module _ (m : ℕ) (c : Collector) (well : IsWell c) (covered : IsCovered c)
    (bound : c.max_fd ≤ m) where
  pub same-IsKept : IsKept m c c
  same-IsKept = record {
    well = well;
    covered = covered;
    bounded = bound;
    grows = omega arith;
    same_server = refl;
  }

  drop_connection-IsKept : (fd : ℕ) → IsKept m c (drop_connection c fd)
  unfolding drop_connection
  drop_connection-IsKept fd = record {
    well = record {
      buffer_size = well.buffer_size;
      buffer_bytes = well.buffer_bytes;
      sensor_size = well.sensor_size;
      sensor_bytes = well.sensor_bytes;
    };
    covered = fd_clear-AllLe c.max_fd fd c.master_set covered;
    bounded = bound;
    grows = omega arith;
    same_server = refl;
  }

  accept_connection-IsKept :
      (accepted : Option ℕ) → AcceptedLe m accepted → IsKept m c (accept_connection c accepted)
  unfolding accept_connection
  accept_connection-IsKept none h = same-IsKept
  accept_connection-IsKept (some sock) h = record {
    well = record {
      buffer_size = well.buffer_size;
      buffer_bytes = well.buffer_bytes;
      sensor_size = well.sensor_size;
      sensor_bytes = well.sensor_bytes;
    };
    covered = (
      ground arith,
      AllLe-mono c.max_fd (if ltb c.max_fd sock then sock else c.max_fd) c.master_set (ground arith)
          covered,
    );
    bounded = ground arith;
    grows = ground arith;
    same_server = refl;
  }

  collected-IsKept :
      (bytes : List ℕ)
      → IsBytes bytes
      → length bytes ≤ receive_size
      → IsKept m c (collected c bytes)
  collected-IsKept bytes b fits = record {
    well = collected-IsWell c bytes well b fits;
    covered = covered;
    bounded = bound;
    grows = omega arith;
    same_server = refl;
  }

  receive_from-IsKept :
      (fd : ℕ) (got : Option (List ℕ))
      → ((bytes : List ℕ) → got ≡ some bytes → IsBytes bytes × (length bytes ≤ receive_size))
      → (next : Collector) × (receive_from c fd got ≡ some next) × IsKept m c next
  unfolding receive_from
  receive_from-IsKept fd none sane = (drop_connection c fd, refl, drop_connection-IsKept fd)
  receive_from-IsKept fd (some bytes) sane =
      let ok = sane bytes refl in
      (
        collected c bytes,
        collect_frame-collected c bytes well ok.0 ok.1,
        collected-IsKept bytes ok.0 ok.1,
      )

  pub serve_fd-IsKept :
      (is_ready : ℕ → Bool) (outside : Outside) (fd : ℕ)
      → IsSane outside
      → AcceptedLe m outside.accepted
      → (next : Collector) × (serve_fd c is_ready outside fd ≡ some next) × IsKept m c next
  unfolding serve_fd
  serve_fd-IsKept is_ready outside fd sane acc = elim (Bool-cases (is_ready fd)) [
    | inr idle ↦ (c, rw idle, same-IsKept)
    | inl busy ↦ elim (Bool-cases (fd == c.server_sock)) [
      | inl server ↦ (
        accept_connection c outside.accepted,
        rw (busy, server),
        accept_connection-IsKept outside.accepted acc,
      )
      | inr client ↦
          let (next, done, kept) =
            receive_from-IsKept fd (outside.receives fd) (sane.messages fd) in
          (next, rw (busy, client) done, kept)
    ]
  ]

pub IsKept-trans : (m : ℕ) (a b c : Collector) → IsKept m a b → IsKept m b c → IsKept m a c
IsKept-trans m a b c h k = record {
  well = k.well;
  covered = k.covered;
  bounded = k.bounded;
  grows = omega (arith, h.grows, k.grows);
  same_server = k.same_server ∙ h.same_server;
}

pub serve_fds-IsKept :
    (m : ℕ) (c : Collector) (is_ready : ℕ → Bool) (outside : Outside)
    → IsSane outside
    → AcceptedLe m outside.accepted
    → IsWell c
    → IsCovered c
    → c.max_fd ≤ m
    → (next : Collector) × (serve_fds (m + 2) c is_ready outside 0 ≡ some (some next))
      × IsKept m c next
unfolding serve_fds
serve_fds-IsKept m c is_ready outside sane acc well covered bound =
    fd_loop-kept (λ d. d.max_fd) (λ d fd. serve_fd d is_ready outside fd) (IsKept m c) m
      (λ d kept. kept.bounded) step (m + 2) c 0 (omega arith) (omega arith)
      (same-IsKept m c well covered bound)
  where
    step :
        (d : Collector) (fd : ℕ)
        → IsKept m c d
        → (next : Collector) × (serve_fd d is_ready outside fd ≡ some next) × IsKept m c next
    step d fd kept =
        let (next, done, kept') =
          serve_fd-IsKept m d kept.well kept.covered kept.bounded is_ready outside fd sane acc in
        (next, done, IsKept-trans m c d next kept kept')

-- From a well collector, with what the calls may give and a bound `m` on the descriptors, an
-- iteration of the outer loop ends within `m + 2` steps of the inner loop and without a fault. It
-- leaves a well collector, whose watched descriptors are at most its maximum, which has not shrunk
-- and is at most `m`.
pub collector_round-IsKept :
    (m : ℕ) (c : Collector) (selected : Selected) (outside : Outside)
    → IsSane outside
    → AcceptedLe m outside.accepted
    → IsWell c
    → IsCovered c
    → c.max_fd ≤ m
    → (next : Collector) × (collector_round (m + 2) c selected outside ≡ some (some next))
      × IsKept m c next
unfolding collector_round
collector_round-IsKept m c select_error outside sane acc well covered bound =
    (c, refl, same-IsKept m c well covered bound)
collector_round-IsKept m c (ready is_ready) outside sane acc well covered bound =
    serve_fds-IsKept m c is_ready outside sane acc well covered bound
