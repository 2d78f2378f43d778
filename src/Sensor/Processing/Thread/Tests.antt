-- ===== src/Sensor/Processing/Thread/Tests.antt =====
-- A time-out and a wake, with doubles that add as numbers.
use communicate_core.Common.{◌≡◌, refl, List, [], ◌∷◌, false, some, replicate}
use communicate_core.Command.{get_send_cmd_size}
use communicate_core.Sensor.Processing.Defs.{timed_out, woken, send_data_size}
use communicate_core.Sensor.Processing.Results.Tests.{integers}
use communicate_core.Sensor.Processing.Thread.{
  Wait, State, sensor_processing_thread, Outcome, sensor_processing_thread-Outcome,
}

abbrev waits : List Wait
waits =
    record { ret = timed_out; shared = replicate 88 0 }
    ∷ record { ret = woken; shared = replicate 88 1 }
    ∷ []

sensor_processing_thread-Outcome_example :
    (last : State) × (sensor_processing_thread integers false
        (some (replicate 30 7))
        (replicate 88 9)
        5
        waits
      ≡ some last)
    × Outcome integers false (some (replicate 30 7)) 5 waits last
unfolding send_data_size get_send_cmd_size
sensor_processing_thread-Outcome_example =
    sensor_processing_thread-Outcome integers false (some (replicate 30 7)) (replicate 88 9) 5 waits
      refl refl (refl, (refl, tt))
