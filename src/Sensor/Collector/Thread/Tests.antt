-- ===== src/Sensor/Collector/Thread/Tests.antt =====
-- Two iterations, one with an error of `select`.
use communicate_core.Common.{◌≡◌, refl, [], ◌∷◌, true, some, arith, replicate}
use communicate_core.Memory.{replicate-IsBytes}
use communicate_core.Sensor.Collector.Defs.{Collector, select_error, ready}
use communicate_core.Sensor.Collector.Rounds.{IsKept}
use communicate_core.Sensor.Collector.Rounds.Tests.{calls, calls-IsSane}
use communicate_core.Sensor.Collector.Thread.{
  start_collector, sensor_collector_thread, sensor_collector_thread-IsKept,
}

sensor_collector_thread-IsKept_example :
    (last : Collector) × (sensor_collector_thread 8 3 (replicate 128 0) (replicate 88 0) (
        record { selected = ready (λ fd. true); outside = calls }
        ∷ record { selected = select_error; outside = calls }
        ∷ [])
      ≡ some (some last))
    × IsKept 6 (start_collector 3 (replicate 128 0) (replicate 88 0)) last
sensor_collector_thread-IsKept_example =
    sensor_collector_thread-IsKept 6 3 (replicate 128 0) (replicate 88 0) (omega arith) refl
      (replicate-IsBytes 128) refl (replicate-IsBytes 88) _
      (
        record { sane = calls-IsSane; accepted = omega arith },
        (record { sane = calls-IsSane; accepted = omega arith }, tt),
      )
