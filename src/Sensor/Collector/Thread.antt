-- ===== src/Sensor/Collector/Thread.antt =====
-- The whole of `sensorCollectorThread`.
pub mod Tests
use communicate_core.Common.{
  ℕ, ◌+◌, ◌≤◌, ◌≡◌, refl, List, [], ◌∷◌, Option, none, some, arith, length, replicate,
}
use communicate_core.Memory.{IsBytes}
use communicate_core.Command.Ids.{sizeof_sensor_data}
use communicate_core.Sensor.Loop.{thread_loop, thread_loop-kept, AllOf}
use communicate_core.Sensor.Collector.Defs.{
  SensorClient, Collector, Outside, Selected, collector_round,
}
use communicate_core.Sensor.Collector.Frames.{IsWell, receive_size}
use communicate_core.Sensor.Collector.Rounds.{
  IsSane, AcceptedLe, IsCovered, IsKept, same-IsKept, IsKept-trans, collector_round-IsKept,
}

-- `MAX_CLIENTS`
abbrev pub max_sensor_clients : ℕ
max_sensor_clients = 5

-- What stands before the loop: the set with the server's socket, the table of clients, and the
-- buffer, which is not initialised.
unfoldable pub start_collector : ℕ → List ℕ → List ℕ → Collector
start_collector server_sock stack shared = record {
  server_sock = server_sock;
  master_set = server_sock ∷ [];
  max_fd = server_sock;
  clients = replicate max_sensor_clients (record { fd = 0; sensor_id = 0 });
  buffer = stack;
  sensor_data = shared;
  effects = [];
}

-- What the calls of an iteration give.
pub record Calls : Type 0 where
  pub selected : Selected
  pub outside : Outside

-- The thread over a number of iterations, with the fuel of the inner loop.
unfoldable pub sensor_collector_thread :
    ℕ → ℕ → List ℕ → List ℕ → List Calls → Option (Option Collector)
unfolding start_collector thread_loop
sensor_collector_thread fuel server_sock stack shared calls =
    thread_loop (λ c (e : Calls). collector_round fuel c e.selected e.outside)
      (start_collector server_sock stack shared) calls

-- What the calls may give: bytes that fit, and descriptors up to `m`.
pub record AreSane (m : ℕ) (calls : Calls) : Type 0 where
  pub sane : IsSane calls.outside
  pub accepted : AcceptedLe m calls.outside.accepted

module _ (m server_sock : ℕ) (stack shared : List ℕ) (low : server_sock ≤ m)
    (room : length stack ≡ receive_size) (stack_bytes : IsBytes stack)
    (whole : length shared ≡ sizeof_sensor_data) (shared_bytes : IsBytes shared) where
  pub start_collector-IsWell : IsWell (start_collector server_sock stack shared)
  unfolding start_collector
  start_collector-IsWell = record {
    buffer_size = room;
    buffer_bytes = stack_bytes;
    sensor_size = whole;
    sensor_bytes = shared_bytes;
  }

  pub start_collector-IsKept :
      IsKept m (start_collector server_sock stack shared) (start_collector server_sock stack shared)
  unfolding start_collector
  start_collector-IsKept = same-IsKept m _ start_collector-IsWell (omega arith) low

  -- From its start on, with any content of its stack and of the shared data, the collector makes
  -- every iteration that its calls give it, for descriptors up to `m` with `m + 2` steps of the inner
  -- loop for each, and whatever its clients send: none faults or runs out of steps. Its buffers
  -- keep their sizes, the watched descriptors stay at most its maximum, which is never above `m` or
  -- below the server's socket, and the server's socket stays.
  pub sensor_collector_thread-IsKept :
      (calls : List Calls)
      → AllOf (AreSane m) calls
      → (last : Collector) × (sensor_collector_thread (m + 2) server_sock stack shared calls
          ≡ some (some last))
        × IsKept m (start_collector server_sock stack shared) last
  unfolding sensor_collector_thread
  sensor_collector_thread-IsKept calls sane =
      thread_loop-kept (λ c (e : Calls). collector_round (m + 2) c e.selected e.outside)
        (IsKept m (start_collector server_sock stack shared)) (AreSane m) step calls
        (start_collector server_sock stack shared) sane start_collector-IsKept
    where
      step :
          (c : Collector) (e : Calls)
          → AreSane m e
          → IsKept m (start_collector server_sock stack shared) c
          → (next : Collector) × (collector_round (m + 2) c e.selected e.outside ≡ some (some next))
            × IsKept m (start_collector server_sock stack shared) next
      step c e sane kept =
          let (next, done, kept') =
            collector_round-IsKept m c e.selected e.outside sane.sane sane.accepted kept.well
              kept.covered kept.bounded in
          (next, done, IsKept-trans m _ c next kept kept')
