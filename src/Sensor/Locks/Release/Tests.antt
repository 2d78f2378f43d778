-- ===== src/Sensor/Locks/Release/Tests.antt =====
-- The collector in its critical section.
use communicate_core.Common.{◌+◌, ◌≡◌, ◌⊎◌, none, some}
use communicate_core.Command.Ids.{sizeof_sensor_data}
use communicate_core.Sensor.Processing.Results.Tests.{integers}
use communicate_core.Sensor.System.Tests.{both, both-IsSound}
use communicate_core.Sensor.Locks.Defs.{collecting, processing, CollectorStep, ProcessorStep}
use communicate_core.Sensor.Locks.Refinement.Tests.{at_lock, at_lock_reached}
use communicate_core.Sensor.Locks.Release.{Frees, owner_releases}

owner_releases_example :
    (at_lock.owner ≡ none)
    ⊎ ((at_lock.owner ≡ some collecting) × Frees (CollectorStep 6) 6 at_lock)
    ⊎ ((at_lock.owner ≡ some processing)
        × Frees (ProcessorStep integers) (sizeof_sensor_data + 2) at_lock)
owner_releases_example =
    owner_releases integers 6 both.collector both.processor at_lock both-IsSound at_lock_reached
