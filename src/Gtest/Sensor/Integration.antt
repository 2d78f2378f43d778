-- ===== src/Gtest/Sensor/Integration.antt =====
-- The environment of gtest-sensor-integration.cc, `UDSServerTestEnv`, and its test from there on.
pub mod Tests
use mathlib.Core.Option.{some-injective}
use mathlib.Core.Path.{subst}
use communicate_core.Common.{
  ℕ, zero, suc, ◌≤◌, ◌≡◌, ◌⊎◌, inl, inr, refl, sym, ap, ap₂, ◌∙◌, List, [], ◌∷◌, Bool, true, false,
  Option, none, some, ◌&&◌, lt_int, if◌then◌else◌, arith, length, replicate,
}
use communicate_core.Memory.{IsBytes, replicate-IsBytes}
use communicate_core.Command.Ids.{sizeof_sensor_data}
use communicate_core.Frame.Layout.{frame_size}
use communicate_core.Sensor.Readings.{Sensor}
use communicate_core.Sensor.Pipeline.{doubles}
use communicate_core.Sensor.Collector.Frames.{IsWell, receive_size}
use communicate_core.Sensor.Collector.Thread.{start_collector, start_collector-IsWell}
use communicate_core.Sensor.Latest.Defs.{Latest, view, Reading, AllReadings, replay, in_order}
use communicate_core.Sensor.Latest.Refinement.{in_order_cong}
use communicate_core.Sensor.Processing.{Arithmetic, Processor, send_data_size, timed_out, woken}
use communicate_core.Sensor.Processing.Results.{total}
use communicate_core.Sensor.System.{System, IsSound}
use communicate_core.Sensor.Locks.{Machine, unlocked}
use communicate_core.Gtest.Sensor.Defs.{sensor_frame, send_data_repeated}
use communicate_core.Gtest.Sensor.Payload.{payload_size, AreDoubles}
use communicate_core.Gtest.Sensor.Frames.{IsSensorFrame}
use communicate_core.Gtest.Sensor.Sums.{
  AllSent, Occurs, Holds, all_readings, replay-Holds, made_frame,
}
use communicate_core.Gtest.Sensor.Results.{
  check_results-verdict, verdict, AllTurns, woken_count, promptly,
}
use communicate_core.Gtest.Sensor.Receiving.{Turn, after, Receiving, check_results}

-- What the threads that the environment starts find: their sockets, the content of their stacks, and
-- the memory that the processor allocates.
pub record Surroundings : Type 0 where
  pub server_sock : ℕ
  pub collector_stack : List ℕ
  pub processor_stack : List ℕ
  pub allocated : List ℕ
  pub client_sock : ℕ

-- The threads that are started. The environment is created with its members zero.
unfoldable pub started : Surroundings → Machine
unfolding start_collector
started from =
    unlocked (start_collector from.server_sock from.collector_stack (replicate 88 0)) (record {
      sensor_data = from.processor_stack;
      packet = from.allocated;
      client_sock = from.client_sock;
      effects = [];
    })

-- `SetUp`: none if the socket is not positive or `connect` fails.
unfoldable pub set_up : (uds_client_sock : ℕ) (connected : Bool) → Surroundings → Option Machine
unfolding started
set_up uds_client_sock connected from =
    if lt_int 0 uds_client_sock && connected then some (started from) else none

pub record IsUsual (m : ℕ) (from : Surroundings) : Type 0 where
  pub low : from.server_sock ≤ m
  pub room : length from.collector_stack ≡ receive_size
  pub stack_bytes : IsBytes from.collector_stack
  pub held : length from.processor_stack ≡ sizeof_sensor_data
  pub packet : length from.allocated ≡ send_data_size

abbrev pub system_of : Machine → System
system_of t = record { collector = t.collector; processor = t.processor }

abbrev pub AllTurnsSent : (Sensor → List ℕ) → List Turn → Type 0
AllTurnsSent frames [] = Unit {0}
AllTurnsSent frames (after rs ret ∷ rest) = AllSent frames rs × AllTurnsSent frames rest

-- A message of the sensor comes before the first result.
abbrev pub IsEarly : Sensor → List Turn → Type 0
IsEarly s [] = Unit {0}
IsEarly s (after rs timed_out ∷ rest) = Occurs s rs ⊎ IsEarly s rest
IsEarly s (after rs woken ∷ rest) = Occurs s rs

-- The test before its loop, for a number of rounds.
abbrev pub at_loop : Machine → ℕ → Receiving
at_loop t rounds = record {
  collector = t.collector;
  processor = t.processor;
  in_socket = [];
  left = rounds;
  passed = true;
}

-- What the four sensors made in their arrays, and that they made it.
pub record AreMade (v : Latest) (buffers frames : Sensor → List ℕ) : Type 0 where
  pub bytes : (s : Sensor) → IsBytes (buffers s)
  pub lengths : (s : Sensor) → length (buffers s) ≡ frame_size (payload_size s)
  pub values : (s : Sensor) → AreDoubles (doubles s) (v s)
  pub built : (s : Sensor) → sensor_frame s (v s) (buffers s) ≡ some (frames s)

started-IsSound :
    (m : ℕ) (from : Surroundings) → IsUsual m from → IsSound m (system_of (started from))
unfolding started start_collector
started-IsSound m from usual = record {
  well =
      start_collector-IsWell m from.server_sock from.collector_stack (replicate 88 0) usual.low
        usual.room usual.stack_bytes refl (replicate-IsBytes 88);
  covered = (omega arith, tt);
  bounded = usual.low;
  held = usual.held;
  room = usual.packet;
  results = tt;
}

module _ (a : Arithmetic) (near : ℕ → Bool) (v : Latest) (buffers frames : Sensor → List ℕ)
    (made : AreMade v buffers frames) (expected : near (total a (in_order v)) ≡ true) where
  packets : Sensor → List ℕ
  packets s =
      (made_frame s (v s) (buffers s) (frames s) (made.bytes s) (made.lengths s) (made.values s)
        (made.built s)).0

  are_frames : (s : Sensor) → IsSensorFrame s (v s) (packets s) (frames s)
  unfolding packets
  are_frames s =
      (made_frame s (v s) (buffers s) (frames s) (made.bytes s) (made.lengths s) (made.values s)
        (made.built s)).1

  all_turns : (rest : List Turn) → AllTurnsSent frames rest → AllTurns rest
  all_turns [] h = tt
  all_turns (after rs ret ∷ rest) h =
      (all_readings v packets frames are_frames rs h.0, all_turns rest h.1)

  held_at_wake :
      (s : Sensor) (rs : List Reading) (rest : List Turn) (f : Latest)
      → Holds v f s ⊎ IsEarly s (after rs woken ∷ rest)
      → Occurs s rs ⊎ Holds v f s
  held_at_wake s rs rest f (inl holds) = inr holds
  held_at_wake s rs rest f (inr early) = inl early

  held_later :
      (s : Sensor) (rs : List Reading) (rest : List Turn) (f : Latest)
      → AllSent frames rs
      → Holds v f s ⊎ IsEarly s (after rs timed_out ∷ rest)
      → Holds v (replay rs f) s ⊎ IsEarly s rest
  held_later s rs rest f sent (inl holds) =
      inl (replay-Holds v packets frames are_frames rs f s sent (inr holds))
  held_later s rs rest f sent (inr (inl occurs)) =
      inl (replay-Holds v packets frames are_frames rs f s sent (inl occurs))
  held_later s rs rest f sent (inr (inr early)) = inr early

  -- Once every sensor's doubles are the latest at the first wake, all results are as expected.
  verdict-Holds :
      (rest : List Turn) (rounds : ℕ) (f : Latest)
      → AllTurnsSent frames rest
      → ((s : Sensor) → Holds v f s ⊎ IsEarly s rest)
      → verdict a near f rounds rest ≡ true
  verdict-Holds rest zero f sent early = refl
  verdict-Holds [] (suc rounds) f sent early = refl
  verdict-Holds (after rs timed_out ∷ rest) (suc rounds) f sent early =
      verdict-Holds rest (suc rounds) (replay rs f) sent.1
        (λ s. held_later s rs rest f sent.0 (early s))
  verdict-Holds (after rs woken ∷ rest) (suc rounds) f sent early =
      let now : (s : Sensor) → Holds v (replay rs f) s = λ s.
        replay-Holds v packets frames are_frames rs f s sent.0
          (held_at_wake s rs rest f (early s)) in
      ap₂ (λ xs ok. near (total a xs) && ok) (in_order_cong (replay rs f) v now)
        (verdict-Holds rest rounds (replay rs f) sent.1 (λ s. inl (now s)))
      ∙ ap (λ ok. ok && true) expected

  -- With a socket that is connected the environment comes up in a sound state, whatever the threads
  -- find on their stacks. From there let the test receive each result before the next one is made,
  -- and let the processor be woken at least as often as its loop has rounds. If every sensor has sent
  -- at least one of its ten messages before the first result, then however the waits return, and
  -- whatever the sensors send later, the loop comes to its end, and the test's expectations hold of
  -- all results, for doubles whose sum is near the expected one.
  pub integration_test_passes :
      (m sock : ℕ) (from : Surroundings) (rest : List Turn) (rounds : ℕ)
      → IsUsual m from
      → lt_int 0 sock ≡ true
      → AllTurnsSent frames rest
      → ((s : Sensor) → IsEarly s rest)
      → rounds ≤ woken_count rest
      → (t : Machine) × (set_up sock true from ≡ some t)
        × IsSound m (system_of t)
        × (last : Receiving) × (check_results a near (at_loop t rounds) (promptly rest) ≡ some last)
        × (last.left ≡ 0)
        × (last.passed ≡ true)
  unfolding set_up
  integration_test_passes m sock from rest rounds usual positive sent early enough =
      let sound = started-IsSound m from usual in
      let t = started from in
      let (last, done, left, passed) =
        check_results-verdict a near rest (at_loop t rounds) refl refl
          (record { well = sound.well; held = sound.held; room = sound.room })
          (all_turns rest sent) in
      (
        t,
        rw positive refl,
        sound,
        last,
        done,
        omega (arith, left, enough),
        passed ∙ verdict-Holds rest rounds (view t.collector.sensor_data) sent (λ s. inr (early s)),
      )
