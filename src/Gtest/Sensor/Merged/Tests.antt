-- ===== src/Gtest/Sensor/Merged/Tests.antt =====
-- Two results at once.
use communicate_core.Common.{ℕ, ◌≡◌, refl, Bool, true, [], ◌∷◌, some, ◌==◌, arith}
use communicate_core.Command.{get_send_cmd_size}
use communicate_core.Sensor.Collector.Frames.Tests.{start, start-IsWell}
use communicate_core.Sensor.Latest.Defs.{view, replay, in_order}
use communicate_core.Sensor.Latest.Refinement.Tests.{
  first, second, first-IsReading, second-IsReading,
}
use communicate_core.Sensor.Processing.{send_data_size}
use communicate_core.Sensor.Processing.Results.{total}
use communicate_core.Sensor.Processing.Results.Tests.{integers}
use communicate_core.Sensor.Processing.Results.Tests.{start as processor}
use communicate_core.Gtest.Sensor.Receiving.{Receiving, check_results}
use communicate_core.Gtest.Sensor.Merged.{burst, results_merged}

abbrev near : ℕ → Bool
near x = x == 0

abbrev two_rounds : Receiving
two_rounds = record {
  collector = start;
  processor = processor;
  in_socket = [];
  left = 2;
  passed = true;
}

results_merged_example :
    (last : Receiving) × (check_results integers near two_rounds
        (burst ((first ∷ []) ∷ (second ∷ []) ∷ []))
      ≡ some last)
    × (last.left ≡ 1)
    × (last.in_socket ≡ [])
    × (last.passed
        ≡ near (total integers (in_order (replay (first ∷ []) (view start.sensor_data)))))
unfolding send_data_size get_send_cmd_size
results_merged_example =
    results_merged integers near (first ∷ []) ((second ∷ []) ∷ []) two_rounds 1
      (record { well = start-IsWell; held = refl; room = refl }) refl refl refl (omega arith)
      ((first-IsReading, tt), ((second-IsReading, tt), tt))
