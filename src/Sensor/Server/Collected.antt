-- ===== src/Sensor/Server/Collected.antt =====
-- The older sensor server of process2.c with the headers of this repository, against the collector.
use mathlib.Core.Option
use communicate_core.Common.{
  ℕ, ◌+◌, ◌≤◌, ◌<◌, ◌≡◌, refl, sym, ap, ◌∙◌, List, [], ◌∷◌, ◌++◌, map, Bool, true, Option, none,
  some, arith, length, ◌==◌, Bool-cases, inl, inr,
}
use communicate_core.Memory.{byte_at, IsBytes, load_in_range, copy_in_range}
use communicate_core.Command.Ids.{sizeof_sensor_data}
use communicate_core.Frame.Layout.{length_at, cmd_at, sizeof_frame_header}
use communicate_core.Frame.Check.{check_packet_format}
use communicate_core.Frame.Acceptance.{check_packet_format_lem}
use communicate_core.Handler.{LogLine, dispatch_command}
use communicate_core.Handler.Dispatch.{expected_log, dispatch_command-effect}
use communicate_core.Sensor.Data.{Effect, log, signal, close, send}
use communicate_core.Sensor.Loop.{fd_loop-simulated}
use communicate_core.Sensor.Collector.{
  Collector, Outside, collector_msg_id, accept_connection, drop_connection, receive_from, serve_fd,
  serve_fds, Selected, select_error, ready, collector_round,
}
use communicate_core.Sensor.Collector.Frames.{
  IsWell, receive_size, reach-le, length-received, received-IsBytes, received, payload_of,
  shared_of, command_of, signal_for, collected, collect_frame-collected,
}
use communicate_core.Sensor.Collector.Rounds.{
  IsSane, IsCovered, AcceptedLe, IsKept, same-IsKept, IsKept-trans, serve_fd-IsKept,
  collector_round-IsKept,
}
use communicate_core.Sensor.Server.Defs.{
  Headers, serve_frame, serve_from, serve_sensor, sensor_round,
}

-- The headers that took the place of the missing ones, with the collector's message id.
abbrev pub of_repository : Headers
of_repository = record {
  sizeof_frame_header = sizeof_frame_header;
  length_at = length_at;
  cmd_at = cmd_at;
  sizeof_sensor_data = sizeof_sensor_data;
  check_packet_format = λ buffer size. check_packet_format buffer collector_msg_id size;
  dispatch_command = dispatch_command;
}

-- `recv` gives at most one byte less than the buffer takes.
pub record IsShort (outside : Outside) : Type 0 where
  pub messages :
      (fd : ℕ) (bytes : List ℕ)
      → outside.receives fd ≡ some bytes
      → IsBytes bytes × (length bytes < receive_size)

abbrev pub without_signals : List Effect → List Effect
without_signals [] = []
without_signals (signal ∷ es) = without_signals es
without_signals (e ∷ es) = e ∷ without_signals es

-- The collector as it would be without its signals.
abbrev pub quiet : Collector → Collector
quiet c = record c { effects = without_signals c.effects }

without_signals-append :
    (xs ys : List Effect) → without_signals (xs ++ ys) ≡ without_signals xs ++ without_signals ys
without_signals-append [] ys = refl
without_signals-append (signal ∷ xs) ys = without_signals-append xs ys
without_signals-append (log l ∷ xs) ys = ap (λ es. log l ∷ es) (without_signals-append xs ys)
without_signals-append (close fd ∷ xs) ys = ap (λ es. close fd ∷ es) (without_signals-append xs ys)
without_signals-append (send fd bytes ∷ xs) ys =
    ap (λ es. send fd bytes ∷ es) (without_signals-append xs ys)

without_signals-logs :
    (ls : List LogLine) (src : ℕ)
    → without_signals (map Effect.log ls ++ signal_for src) ≡ map Effect.log ls
without_signals-logs [] src = ground arith
without_signals-logs (l ∷ ls) src = ap (λ es. log l ∷ es) (without_signals-logs ls src)

module _ (c : Collector) (well : IsWell c) where
  serve_frame-collected :
      (bytes : List ℕ)
      → IsBytes bytes
      → length bytes < receive_size
      → serve_frame of_repository (quiet c) bytes ≡ some (quiet (collected c bytes))
  unfolding serve_frame
  serve_frame-collected bytes are_bytes fits =
      rw
        (
          copy_in_range (length bytes) c.buffer bytes (omega (arith, well.buffer_size))
              (omega arith),
          check_packet_format_lem (received c bytes) collector_msg_id (length bytes)
              (received-IsBytes c bytes well are_bytes (omega arith)) (omega (arith, sized))
              (omega (arith, sized)) (omega arith),
          load_in_range 4 (received c bytes) 2 (omega (arith, sized)),
          load_in_range 2 (received c bytes) 9 (omega (arith, sized)),
          dispatch_command-effect (payload_of c bytes) (shared_of c) true (omega (arith, sized))
              (command_of c bytes) (omega (arith, well.sensor_size, reach-le (command_of c bytes))),
        )
        (ap (λ es. some (record (collected c bytes) { effects = es })) (sym same_effects))
    where
      sized : length (received c bytes) ≡ receive_size
      sized = length-received c bytes well are_bytes (omega arith)

      same_effects :
          without_signals (collected c bytes).effects
          ≡ without_signals c.effects ++ map Effect.log (expected_log (command_of c bytes) true)
      same_effects =
          without_signals-append c.effects _
          ∙ ap (λ es. without_signals c.effects ++ es)
              (without_signals-logs (expected_log (command_of c bytes) true)
                (byte_at (received c bytes) 6))

  drop_connection-quiet : (fd : ℕ) → drop_connection (quiet c) fd ≡ quiet (drop_connection c fd)
  unfolding drop_connection
  drop_connection-quiet fd =
      ap (λ es. record (drop_connection c fd) { effects = es })
        (sym (without_signals-append c.effects (close fd ∷ [])))

  accept_connection-quiet :
      (accepted : Option ℕ)
      → accept_connection (quiet c) accepted ≡ quiet (accept_connection c accepted)
  unfolding accept_connection
  accept_connection-quiet none = refl
  accept_connection-quiet (some sock) = refl

  serve_from-collected :
      (fd : ℕ) (got : Option (List ℕ))
      → ((bytes : List ℕ) → got ≡ some bytes → IsBytes bytes × (length bytes < receive_size))
      → serve_from of_repository (quiet c) fd got ≡ Option.map quiet (receive_from c fd got)
  unfolding receive_from serve_from
  serve_from-collected fd none short = ap some (drop_connection-quiet fd)
  serve_from-collected fd (some bytes) short =
      let (are_bytes, fits) = short bytes refl in
      rw (collect_frame-collected c bytes well are_bytes (omega arith))
        (serve_frame-collected bytes are_bytes fits)

  serve_sensor-collected :
      (is_ready : ℕ → Bool) (outside : Outside) (fd : ℕ)
      → IsShort outside
      → serve_sensor of_repository (quiet c) is_ready outside fd
        ≡ Option.map quiet (serve_fd c is_ready outside fd)
  unfolding serve_sensor serve_fd
  serve_sensor-collected is_ready outside fd short = elim (Bool-cases (is_ready fd)) [
    | inr idle ↦ rw idle refl
    | inl busy ↦ elim (Bool-cases (fd == c.server_sock)) [
      | inl server ↦ rw (busy, server) (ap some (accept_connection-quiet outside.accepted))
      | inr client ↦
          rw (busy, client) (serve_from-collected fd (outside.receives fd) (short.messages fd))
    ]
  ]

pub IsShort-IsSane : (outside : Outside) → IsShort outside → IsSane outside
IsShort-IsSane outside short = record {
  messages =
      λ fd bytes e. let (are_bytes, fits) = short.messages fd bytes e in (are_bytes, omega arith);
}

-- With the headers of this repository in the place of the missing ones, an iteration of the older
-- sensor server does to its array of readings what the collector does to the shared one, and to all
-- else too, for messages that are shorter than the buffer: the two differ in the signals alone,
-- which the older one never gives.
pub sensor_round_quiet :
    (m : ℕ) (c : Collector) (selected : Selected) (outside : Outside)
    → IsShort outside
    → AcceptedLe m outside.accepted
    → IsWell c
    → IsCovered c
    → c.max_fd ≤ m
    → (next : Collector) × (collector_round (m + 2) c selected outside ≡ some (some next))
      × (sensor_round of_repository (m + 2) (quiet c) selected outside ≡ some (some (quiet next)))
unfolding sensor_round collector_round serve_fds
sensor_round_quiet m c select_error outside short acc well covered bound = (c, refl, refl)
sensor_round_quiet m c (ready is_ready) outside short acc well covered bound =
    let (next, done, kept) =
      collector_round-IsKept m c (ready is_ready) outside (IsShort-IsSane outside short) acc well
        covered bound in
    (
      next,
      done,
      fd_loop-simulated (λ d. d.max_fd) (λ d fd. serve_fd d is_ready outside fd) (λ d. d.max_fd)
          (λ d fd. serve_sensor of_repository d is_ready outside fd) quiet (IsKept m c) (λ d. refl)
          step (m + 2) c next 0 (same-IsKept m c well covered bound) done,
    )
  where
    step :
        (d : Collector) (fd : ℕ)
        → IsKept m c d
        → (after : Collector) × (serve_fd d is_ready outside fd ≡ some after)
          × (serve_sensor of_repository (quiet d) is_ready outside fd ≡ some (quiet after))
          × IsKept m c after
    step d fd kept =
        let (after, done, kept') =
          serve_fd-IsKept m d kept.well kept.covered kept.bounded is_ready outside fd
            (IsShort-IsSane outside short) acc in
        (
          after,
          done,
          serve_sensor-collected d kept.well is_ready outside fd short ∙ ap (Option.map quiet) done,
          IsKept-trans m c d after kept kept',
        )
