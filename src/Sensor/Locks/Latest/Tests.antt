-- ===== src/Sensor/Locks/Latest/Tests.antt =====
-- A reading that comes while the processor waits.
use communicate_core.Common.{ℕ, ◌≡◌, ◌⊎◌, refl, List, [], ◌∷◌, ◌++◌, true, some}
use communicate_core.Memory.{byte_at}
use communicate_core.Sensor.Collector.Frames.{received as receive_buffer, command_of}
use communicate_core.Sensor.Collector.Frames.Tests.{start, start-IsWell}
use communicate_core.Sensor.Processing.Results.Tests.{integers}
use communicate_core.Sensor.System.Tests.{both, both-IsSound}
use communicate_core.Sensor.Latest.Defs.{view, Reading, replay}
use communicate_core.Sensor.Latest.Steps.{Agrees}
use communicate_core.Sensor.Latest.History.{History}
use communicate_core.Sensor.Latest.Refinement.Tests.{first, first-IsReading}
use communicate_core.Sensor.Locks.Defs.{
  collecting, dispatching, waiting, Machine, receives, locks, enters, waits, collector_steps,
  processor_steps, Reach, here, next, unlocked, stores_of,
}
use communicate_core.Sensor.Locks.Relation.{collector_holds}
use communicate_core.Sensor.Locks.Messages.{receive_frame_lem}
use communicate_core.Sensor.Locks.Latest.{Flying, Sent, locked_refines_latest}

abbrev storing : Machine
storing = record {
  collector = record start { buffer = receive_buffer start first.bytes };
  processor = both.processor;
  owner = some collecting;
  collector_at =
      dispatching (command_of start first.bytes) (byte_at (receive_buffer start first.bytes) 6) (
        stores_of (record start { buffer = receive_buffer start first.bytes })
          (command_of start first.bytes));
  processor_at = waiting;
}

abbrev to_storing : Reach integers 6 (unlocked start both.processor) storing
to_storing =
    next
      (next (next (next here (processor_steps (enters refl refl))) (processor_steps (waits refl))) (
        collector_steps (
          receives 4 first.bytes _ _ refl first-IsReading.are_bytes first-IsReading.fits refl (
            receive_frame_lem start first.bytes start-IsWell first-IsReading.are_bytes
              first-IsReading.fits))))
      (collector_steps (locks _ _ refl refl))

locked_refines_latest_example :
    (stored : List Reading) × (new : List Reading) × (made : List ℕ) × (first ∷ [] ≡ stored ++ new)
    × Flying storing.collector_at new
    × History integers (view start.sensor_data) stored made
    × Sent waiting [] made
    × ((collector_holds storing.collector_at ≡ true)
        ⊎ Agrees (view storing.collector.sensor_data) (replay stored (view start.sensor_data)))
locked_refines_latest_example =
    locked_refines_latest integers 6 start both.processor storing (first ∷ []) both-IsSound refl
      to_storing refl (first-IsReading, tt)
