-- ===== src/Gtest/Sensor/Results/Tests.antt =====
-- Two results, the first behind two messages.
use communicate_core.Common.{ℕ, ◌≡◌, refl, Bool, true, List, [], ◌∷◌, some, ◌==◌}
use communicate_core.Command.{get_send_cmd_size}
use communicate_core.Sensor.Collector.Frames.Tests.{start, start-IsWell}
use communicate_core.Sensor.Latest.Defs.{view}
use communicate_core.Sensor.Processing.{send_data_size, timed_out, woken}
use communicate_core.Sensor.Processing.Results.Tests.{integers}
use communicate_core.Sensor.Processing.Results.Tests.{start as processor}
use communicate_core.Sensor.Latest.Refinement.Tests.{
  first, second, first-IsReading, second-IsReading,
}
use communicate_core.Gtest.Sensor.Results.{promptly, verdict, check_results-verdict}
use communicate_core.Gtest.Sensor.Receiving.{Turn, after, Receiving, check_results}

abbrev near : ℕ → Bool
near x = x == 0

-- A wait that times out behind two messages, and two wakes, the second behind no message. A third
-- result does not come.
abbrev some_turns : List Turn
some_turns = after (first ∷ second ∷ []) timed_out ∷ after (first ∷ []) woken ∷ after [] woken ∷ []

abbrev before_loop : Receiving
before_loop = record {
  collector = start;
  processor = processor;
  in_socket = [];
  left = 3;
  passed = true;
}

check_results-verdict_example :
    (last : Receiving) × (check_results integers near before_loop (promptly some_turns) ≡ some last)
    × (last.left ≡ 1)
    × (last.passed ≡ verdict integers near (view start.sensor_data) 3 some_turns)
unfolding send_data_size get_send_cmd_size
check_results-verdict_example =
    check_results-verdict integers near some_turns before_loop refl refl
      (record { well = start-IsWell; held = refl; room = refl })
      ((first-IsReading, (second-IsReading, tt)), ((first-IsReading, tt), (tt, tt)))
