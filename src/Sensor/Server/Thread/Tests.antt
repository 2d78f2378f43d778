-- ===== src/Sensor/Server/Thread/Tests.antt =====
-- Two iterations of either thread, one with an error of `select`.
use communicate_core.Common.{
  ℕ, ◌≡◌, ◌<◌, refl, sym, List, [], ◌∷◌, Bool, true, false, none, some, ◌==◌, if◌then◌else◌, arith,
  length, replicate,
}
use communicate_core.Memory.{IsBytes, replicate-IsBytes}
use communicate_core.Sensor.Loop.{AllOf}
use communicate_core.Sensor.Collector.{Collector, select_error, ready}
use communicate_core.Sensor.Collector.Frames.{receive_size}
use communicate_core.Sensor.Collector.Frames.Tests.{reading, reading-IsBytes}
use communicate_core.Sensor.Collector.Rounds.Tests.{calls}
use communicate_core.Sensor.Collector.Thread.{Calls, sensor_collector_thread}
use communicate_core.Sensor.Server.Collected.{of_repository, quiet, IsShort}
use communicate_core.Sensor.Server.Thread.{
  AreShort, sensor_server_thread, sensor_server_thread_quiet,
}

arrives_IsShort :
    (b : Bool) (bytes : List ℕ)
    → (if b then some reading else none) ≡ some bytes
    → IsBytes bytes × (length bytes < receive_size)
arrives_IsShort true bytes e =
    let same : reading ≡ bytes = cc e in rw (sym same) (reading-IsBytes, omega arith)
arrives_IsShort false bytes e = absurd (cc e)

calls-IsShort : IsShort calls
calls-IsShort = record { messages = λ fd bytes e. arrives_IsShort (fd == 4) bytes e }

abbrev two_calls : List Calls
two_calls =
    record { selected = ready (λ fd. true); outside = calls }
    ∷ record { selected = select_error; outside = calls }
    ∷ []

two_calls_short : AllOf (AreShort 6) two_calls
two_calls_short = (
  record { short = calls-IsShort; accepted = omega arith },
  (record { short = calls-IsShort; accepted = omega arith }, tt),
)

sensor_server_thread_quiet_example :
    (last : Collector) × (sensor_collector_thread 8 3 (replicate 128 0) (replicate 88 0) two_calls
      ≡ some (some last))
    × (sensor_server_thread of_repository 8 3 (replicate 128 0) (replicate 88 0) two_calls
        ≡ some (some (quiet last)))
sensor_server_thread_quiet_example =
    sensor_server_thread_quiet 6 3 (replicate 128 0) (replicate 88 0) (omega arith) refl
      (replicate-IsBytes 128) (replicate-IsBytes 88) refl two_calls two_calls_short
