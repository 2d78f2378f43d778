-- ===== src/Sensor/Locks/Refinement/Tests.antt =====
-- A reading of EXTERN4 that is about to be stored.
use communicate_core.Common.{◌≡◌, ◌⊎◌, refl, true, some, arith}
use communicate_core.Memory.{byte_at}
use communicate_core.Sensor.Collector.Frames.{received as receive_buffer, command_of}
use communicate_core.Sensor.Collector.Frames.Tests.{start, start-IsWell, reading, reading-IsBytes}
use communicate_core.Sensor.Processing.Results.Tests.{integers}
use communicate_core.Sensor.System.{System, IsSound}
use communicate_core.Sensor.System as Atomic
use communicate_core.Sensor.System.Tests.{both, both-IsSound}
use communicate_core.Sensor.Locks.Defs.{
  collecting, dispatching, outside, Machine, receives, locks, collector_steps, Reach, here, next,
  unlocked, stores_of,
}
use communicate_core.Sensor.Locks.Relation.{IsExclusive, collector_holds, ProcessorMatches}
use communicate_core.Sensor.Locks.Messages.{receive_frame_lem}
use communicate_core.Sensor.Locks.Refinement.{locked_refines_system}

abbrev pub at_lock : Machine
at_lock = record {
  collector = record start { buffer = receive_buffer start reading };
  processor = both.processor;
  owner = some collecting;
  collector_at = dispatching (command_of start reading) (byte_at (receive_buffer start reading) 6) (
      stores_of (record start { buffer = receive_buffer start reading })
        (command_of start reading));
  processor_at = outside;
}

pub at_lock_reached : Reach integers 6 (unlocked both.collector both.processor) at_lock
at_lock_reached =
    next
      (next here (
        collector_steps (
          receives 4 reading _ _ refl reading-IsBytes (omega arith) refl
            (receive_frame_lem start reading start-IsWell reading-IsBytes (omega arith)))))
      (collector_steps (locks _ _ refl refl))

locked_refines_system_example :
    IsExclusive at_lock
    × (s : System) × Atomic.Reach integers 6
        (record { collector = both.collector; processor = both.processor })
        s
    × IsSound 6 s
    × ((collector_holds at_lock.collector_at ≡ true)
        ⊎ (at_lock.collector.sensor_data ≡ s.collector.sensor_data))
    × ProcessorMatches integers s.processor s.collector.sensor_data at_lock.processor
        at_lock.processor_at
locked_refines_system_example =
    locked_refines_system integers 6 both.collector both.processor at_lock both-IsSound
      at_lock_reached
