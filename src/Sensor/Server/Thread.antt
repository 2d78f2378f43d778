-- ===== src/Sensor/Server/Thread.antt =====
-- The whole of `sensorServerThread` of process2.c.
pub mod Tests
use mathlib.Core.Path.{subst}
use mathlib.Core.Option.{some-injective}
use communicate_core.Common.{
  ℕ, ◌+◌, ◌≤◌, ◌<◌, ◌≡◌, refl, sym, ◌∙◌, List, Option, some, arith, length,
}
use communicate_core.Memory.{IsBytes}
use communicate_core.Command.Ids.{sizeof_sensor_data}
use communicate_core.Sensor.Loop.{thread_loop, thread_loop-kept, thread_loop-simulated, AllOf}
use communicate_core.Sensor.Collector.{Collector, collector_round}
use communicate_core.Sensor.Collector.Frames.{receive_size}
use communicate_core.Sensor.Collector.Rounds.{
  AcceptedLe, IsKept, IsKept-trans, collector_round-IsKept,
}
use communicate_core.Sensor.Collector.Thread.{
  Calls, start_collector, start_collector-IsKept, sensor_collector_thread,
}
use communicate_core.Sensor.Server.Defs.{Headers, sensor_round}
use communicate_core.Sensor.Server.Collected.{
  of_repository, quiet, IsShort, sensor_round_quiet, IsShort-IsSane,
}

-- The thread over a number of iterations, with the fuel of the inner loop. It starts as the collector
-- does; both its arrays stand on its stack.
unfoldable pub sensor_server_thread :
    Headers → ℕ → ℕ → List ℕ → List ℕ → List Calls → Option (Option Collector)
unfolding start_collector thread_loop
sensor_server_thread hs fuel server_sock stack struct_data calls =
    thread_loop (λ c (e : Calls). sensor_round hs fuel c e.selected e.outside)
      (start_collector server_sock stack struct_data) calls

-- What `recv` into all but one byte of the buffer may give, and descriptors up to `m`.
pub record AreShort (m : ℕ) (calls : Calls) : Type 0 where
  pub short : IsShort calls.outside
  pub accepted : AcceptedLe m calls.outside.accepted

module _ (m server_sock : ℕ) (stack struct_data : List ℕ) (low : server_sock ≤ m)
    (room : length stack ≡ receive_size) (stack_bytes : IsBytes stack)
    (struct_bytes : IsBytes struct_data) where
  -- With the headers of this repository in the place of the missing ones, the older sensor server
  -- does, over any number of iterations from its start on, to its own array of readings what the
  -- collector does to the shared data, and to all else too, for messages that are shorter than the
  -- buffer: the two differ in the signals alone, which the older one never gives.
  pub sensor_server_thread_quiet :
      length struct_data ≡ sizeof_sensor_data
      → (calls : List Calls) → AllOf (AreShort m) calls
      → (last : Collector) × (sensor_collector_thread (m + 2) server_sock stack struct_data calls
          ≡ some (some last))
        × (sensor_server_thread of_repository (m + 2) server_sock stack struct_data calls
            ≡ some (some (quiet last)))
  unfolding sensor_server_thread sensor_collector_thread
  sensor_server_thread_quiet whole calls short =
      thread_loop-simulated (λ c (e : Calls). collector_round (m + 2) c e.selected e.outside)
        (λ c (e : Calls). sensor_round of_repository (m + 2) c e.selected e.outside) quiet
        (IsKept m start) (AreShort m) step calls start short
        (start_collector-IsKept m server_sock stack struct_data low room stack_bytes whole
          struct_bytes)
    where
      start : Collector
      start = start_collector server_sock stack struct_data

      step :
          (c : Collector) (e : Calls)
          → AreShort m e
          → IsKept m start c
          → (next : Collector) × (collector_round (m + 2) c e.selected e.outside ≡ some (some next))
            × (sensor_round of_repository (m + 2) (quiet c) e.selected e.outside
                ≡ some (some (quiet next)))
            × IsKept m start next
      step c e short kept =
          let (next, done, kept') =
            collector_round-IsKept m c e.selected e.outside (IsShort-IsSane e.outside short.short)
              short.accepted kept.well kept.covered kept.bounded in
          let (other, same, follows) =
            sensor_round_quiet m c e.selected e.outside short.short short.accepted kept.well
              kept.covered kept.bounded in
          let one_result =
            some-injective next other (some-injective (some next) (some other) (sym done ∙ same)) in
          (
            other,
            same,
            follows,
            subst (IsKept m start) one_result (IsKept-trans m start c next kept kept'),
          )
