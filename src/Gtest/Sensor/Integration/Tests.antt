-- ===== src/Gtest/Sensor/Integration/Tests.antt =====
-- The test with small numbers for its doubles, of which the sum is expected exactly.
use communicate_core.Common.{
  ℕ, ◌≡◌, refl, inl, inr, take, List, Bool, true, [], ◌∷◌, some, ◌==◌, arith, replicate,
}
use communicate_core.Memory.{replicate-IsBytes}
use communicate_core.Command.{get_send_cmd_size}
use communicate_core.Sensor.Latest.Defs.{in_order}
use communicate_core.Sensor.Processing.{send_data_size, timed_out, woken}
use communicate_core.Sensor.Processing.Results.{total}
use communicate_core.Sensor.Processing.Results.Tests.{integers}
use communicate_core.Sensor.System.{IsSound}
use communicate_core.Sensor.Locks.{Machine}
use communicate_core.Gtest.Sensor.Frames.Tests.{
  values, arrays, frames, frames_built, arrays_fit, arrays-IsBytes, values-AreDoubles,
}
use communicate_core.Gtest.Sensor.Defs.{send_data_repeated}
use communicate_core.Gtest.Sensor.Payload.{payload_size}
use communicate_core.Sensor.Latest.Defs.{Reading}
use communicate_core.Sensor.Readings.{Sensor, extern1, extern2, extern3, extern4}
use communicate_core.Frame.Layout.{frame_size}
use communicate_core.Gtest.Sensor.Results.{promptly}
use communicate_core.Gtest.Sensor.Receiving.{Turn, after, Receiving, check_results}
use communicate_core.Gtest.Sensor.Integration.{
  Surroundings, set_up, IsUsual, system_of, at_loop, AllTurnsSent, IsEarly, AreMade,
  integration_test_passes,
}

abbrev near : ℕ → Bool
near x = x == total integers (in_order values)

abbrev usual : Surroundings
usual = record {
  server_sock = 3;
  collector_stack = replicate 128 0;
  processor_stack = replicate 88 9;
  allocated = replicate 30 5;
  client_sock = 6;
}

abbrev sent : Sensor → Reading
sent s = record { sensor = s; bytes = take (frame_size (payload_size s)) (frames s) }

-- The first two sensors send, and a wait times out, then the others, and two wakes.
abbrev some_turns : List Turn
some_turns =
    after (sent extern2 ∷ sent extern1 ∷ []) timed_out
    ∷ after (sent extern3 ∷ sent extern4 ∷ []) woken
    ∷ after (sent extern4 ∷ []) woken
    ∷ []

turns_sent : AllTurnsSent frames some_turns
unfolding send_data_repeated
turns_sent = ((inl refl, (inl refl, tt)), ((inl refl, (inl refl, tt)), ((inl refl, tt), tt)))

some_turns-IsEarly : (s : Sensor) → IsEarly s some_turns
some_turns-IsEarly extern1 = inl (inr (inl refl))
some_turns-IsEarly extern2 = inl (inl refl)
some_turns-IsEarly extern3 = inr (inl refl)
some_turns-IsEarly extern4 = inr (inr (inl refl))

usual-IsUsual : IsUsual 6 usual
unfolding send_data_size get_send_cmd_size
usual-IsUsual = record {
  low = omega arith;
  room = refl;
  stack_bytes = replicate-IsBytes 128;
  held = refl;
  packet = refl;
}

made : AreMade values arrays frames
made = record {
  bytes = arrays-IsBytes;
  lengths = arrays_fit;
  values = values-AreDoubles;
  built = frames_built;
}

integration_test_passes_example :
    (t : Machine) × (set_up 4 true usual ≡ some t)
    × IsSound 6 (system_of t)
    × (last : Receiving) × (check_results integers near (at_loop t 2) (promptly some_turns)
        ≡ some last)
    × (last.left ≡ 0)
    × (last.passed ≡ true)
integration_test_passes_example =
    integration_test_passes integers near values arrays frames made refl 6 4 usual some_turns 2
      usual-IsUsual refl turns_sent some_turns-IsEarly (omega arith)
