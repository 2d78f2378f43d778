-- ===== src/Sensor/Locks/Relation.antt =====
-- How a state with the lock corresponds to one of Sensor.System, where a message or an iteration is
-- one step.
use communicate_core.Common.{
  ℕ, zero, suc, ◌≤◌, ◌<◌, ◌≡◌, refl, List, [], ◌∷◌, ◌++◌, map, Bool, true, false, Option, some,
  arith, length, set, ap, ◌==◌,
}
use communicate_core.Memory.{byte_at, IsBytes, copied}
use communicate_core.Command.Ids.{sizeof_sensor_data}
use communicate_core.Handler.Dispatch.{expected_log}
use communicate_core.Handler.Stores.{run_stores, AllWithin, most_stores}
use communicate_core.Sensor.Data.{Effect}
use communicate_core.Sensor.Collector.{Collector}
use communicate_core.Sensor.Collector.Frames.{
  receive_size, received as receive_buffer, command_of, signal_for,
}
use communicate_core.Sensor.Processing.{Arithmetic, Processor, send_result}
use communicate_core.Sensor.System.{System}
use communicate_core.Sensor.Locks.Defs.{
  Thread, collecting, processing, CollectorAt, serving, received, dispatching, dispatched, leaving,
  ProcessorAt, outside, entering, waiting, returning, returned, copying, summing, Machine,
}

-- Whether a thread is between its lock and its unlock, and not in the wait.
abbrev pub collector_holds : CollectorAt → Bool
collector_holds serving = false
collector_holds (received cmd src) = false
collector_holds at = true

abbrev pub processor_holds : ProcessorAt → Bool
processor_holds entering = true
processor_holds (returned ret) = true
processor_holds (copying done) = true
processor_holds at = false

abbrev pub is_owner : Thread → Option Thread → Bool
is_owner collecting (some collecting) = true
is_owner processing (some processing) = true
is_owner thread owner = false

-- The owner of the mutex is the thread that stands in its critical section.
pub record IsExclusive (t : Machine) : Type 0 where
  pub by_collector : collector_holds t.collector_at ≡ is_owner collecting t.owner
  pub by_processor : processor_holds t.processor_at ≡ is_owner processing t.owner

-- The collector `c` of the system is ahead of `u` from the lock on: it has the whole message.
-- In `received` it has not taken the one message of `w` yet.
abbrev pub CollectorMatches : List (List ℕ) → Collector → Collector → CollectorAt → Type 0
CollectorMatches w c u serving = u ≡ c
CollectorMatches w c u (received cmd src) =
    (fd : ℕ) × (bytes : List ℕ) × ((fd == c.server_sock) ≡ false)
    × IsBytes bytes
    × (length bytes ≤ receive_size)
    × (u ≡ record c { buffer = receive_buffer c bytes })
    × (cmd ≡ command_of c bytes)
    × (src ≡ byte_at (receive_buffer c bytes) 6)
    × (w ≡ bytes ∷ [])
CollectorMatches w c u (dispatching cmd src todo) =
    AllWithin (length u.sensor_data) todo
    × (length todo ≤ most_stores)
    × (c ≡ record u {
      sensor_data = run_stores todo u.sensor_data;
      effects = u.effects ++ (map Effect.log (expected_log cmd true) ++ signal_for src);
    })
CollectorMatches w c u (dispatched src) = c ≡ record u { effects = u.effects ++ signal_for src }
CollectorMatches w c u leaving = u ≡ c

-- The processor `p` of the system is behind `q` in the copy, and has sent before it sums.
abbrev pub ProcessorMatches : Arithmetic → Processor → List ℕ → Processor → ProcessorAt → Type 0
ProcessorMatches a p shared q (copying done) =
    (done ≤ sizeof_sensor_data) × (q ≡ record p { sensor_data = copied done p.sensor_data shared })
ProcessorMatches a p shared q summing = send_result a q ≡ some p
ProcessorMatches a p shared q at = q ≡ p

-- Whether the messages `w` may be received and not stored.
abbrev pub InFlight : List (List ℕ) → CollectorAt → Type 0
InFlight w (received cmd src) = Unit {0}
InFlight w at = w ≡ []

pub record Matches (a : Arithmetic) (s : System) (w : List (List ℕ)) (t : Machine) : Type 0 where
  pub exclusive : IsExclusive t
  pub collector : CollectorMatches w s.collector t.collector t.collector_at
  pub in_flight : InFlight w t.collector_at
  pub processor : ProcessorMatches a s.processor s.collector.sensor_data t.processor t.processor_at

-- While the collector does not hold the mutex, the shared data are those of the system.
pub CollectorMatches-shared :
    (w : List (List ℕ)) (c u : Collector) (at : CollectorAt)
    → CollectorMatches w c u at
    → collector_holds at ≡ false
    → u.sensor_data ≡ c.sensor_data
CollectorMatches-shared w c u serving h free = ap (λ (d : Collector). d.sensor_data) h
CollectorMatches-shared w c u (received cmd src) h free =
    let (fd, bytes, other, are_bytes, fits, same, of, from, flies) = h in
    ap (λ (d : Collector). d.sensor_data) same
CollectorMatches-shared w c u (dispatching cmd src todo) h free = absurd (cc free)
CollectorMatches-shared w c u (dispatched src) h free = absurd (cc free)
CollectorMatches-shared w c u leaving h free = absurd (cc free)

-- Outside of the critical section the processor does not depend on the shared data.
pub ProcessorMatches-elsewhere :
    (a : Arithmetic) (p q : Processor) (shared other : List ℕ) (at : ProcessorAt)
    → processor_holds at ≡ false
    → ProcessorMatches a p shared q at
    → ProcessorMatches a p other q at
ProcessorMatches-elsewhere a p q shared other outside free h = h
ProcessorMatches-elsewhere a p q shared other entering free h = h
ProcessorMatches-elsewhere a p q shared other waiting free h = h
ProcessorMatches-elsewhere a p q shared other (returning ret) free h = h
ProcessorMatches-elsewhere a p q shared other (returned ret) free h = h
ProcessorMatches-elsewhere a p q shared other (copying done) free h = absurd (cc free)
ProcessorMatches-elsewhere a p q shared other summing free h = h

-- A byte more of a copy.
pub set-copied :
    (k : ℕ) (to from : List ℕ)
    → k < length to
    → k < length from
    → set (copied k to from) k (byte_at from k) ≡ copied (suc k) to from
set-copied k [] from h r = absurd (omega arith)
set-copied k (x ∷ to) [] h r = absurd (omega arith)
set-copied zero (x ∷ to) (y ∷ from) h r = refl
set-copied (suc k) (x ∷ to) (y ∷ from) h r =
    ap (λ l. y ∷ l) (set-copied k to from (omega arith) (omega arith))
