-- ===== src/Sensor/Collector/Rounds/Tests.antt =====
-- An iteration with a new connection and a reading.
use communicate_core.Common.{
  ℕ, ◌≤◌, ◌≡◌, sym, List, Bool, true, false, none, some, ◌==◌, if◌then◌else◌, arith, length,
}
use communicate_core.Memory.{IsBytes}
use communicate_core.Sensor.Collector.Defs.{Outside}
use communicate_core.Sensor.Collector.Frames.{receive_size}
use communicate_core.Sensor.Collector.Frames.Tests.{reading, reading-IsBytes}
use communicate_core.Sensor.Collector.Rounds.{IsSane}

abbrev pub calls : Outside
calls = record { accepted = some 6; receives = λ fd. if fd == 4 then some reading else none }

arrives_IsSane :
    (b : Bool) (bytes : List ℕ)
    → (if b then some reading else none) ≡ some bytes
    → IsBytes bytes × (length bytes ≤ receive_size)
arrives_IsSane true bytes e =
    let same : reading ≡ bytes = cc e in rw (sym same) (reading-IsBytes, omega arith)
arrives_IsSane false bytes e = absurd (cc e)

pub calls-IsSane : IsSane calls
calls-IsSane = record { messages = λ fd bytes e. arrives_IsSane (fd == 4) bytes e }
