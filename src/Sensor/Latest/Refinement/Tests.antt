-- ===== src/Sensor/Latest/Refinement/Tests.antt =====
-- Two readings of one sensor and one of another.
use communicate_core.Common.{◌≡◌, refl, List, [], ◌∷◌, some, arith, replicate}
use communicate_core.Memory.{peek, IsBytes-of_all}
use communicate_core.Sensor.Readings.{extern2, extern3}
use communicate_core.Sensor.Collector.{Collector}
use communicate_core.Sensor.Collector.Frames.{IsWell}
use communicate_core.Sensor.Collector.Frames.Tests.{start, start-IsWell}
use communicate_core.Sensor.Processing.Results.{readings}
use communicate_core.Sensor.Latest.Defs.{Reading, IsReading, view, replay, collect_all, in_order}
use communicate_core.Sensor.Latest.Refinement.{collector_refines_latest}
use communicate_core.Common.{ℕ}

abbrev message : ℕ → ℕ → List ℕ
message id byte = 0xF0 ∷ 0xF0 ∷ 24 ∷ 0 ∷ 0 ∷ 0 ∷ 0x22 ∷ 0x10 ∷ 0 ∷ id ∷ 0 ∷ replicate 27 byte

abbrev pub first : Reading
first = record { sensor = extern2; bytes = message 101 7 }

abbrev pub second : Reading
second = record { sensor = extern3; bytes = message 102 8 }

abbrev third : Reading
third = record { sensor = extern2; bytes = message 101 9 }

pub first-IsReading : IsReading first
unfolding peek
first-IsReading = record {
  are_bytes = IsBytes-of_all first.bytes (omega arith);
  whole = omega arith;
  fits = omega arith;
  command = refl;
}

pub second-IsReading : IsReading second
unfolding peek
second-IsReading = record {
  are_bytes = IsBytes-of_all second.bytes (omega arith);
  whole = omega arith;
  fits = omega arith;
  command = refl;
}

third-IsReading : IsReading third
unfolding peek
third-IsReading = record {
  are_bytes = IsBytes-of_all third.bytes (omega arith);
  whole = omega arith;
  fits = omega arith;
  command = refl;
}

collector_refines_latest_example :
    (last : Collector) × (collect_all start (first ∷ second ∷ third ∷ []) ≡ some last)
    × IsWell last
    × (readings last.sensor_data
        ≡ in_order (replay (first ∷ second ∷ third ∷ []) (view start.sensor_data)))
collector_refines_latest_example =
    collector_refines_latest (first ∷ second ∷ third ∷ []) start start-IsWell
      (first-IsReading, (second-IsReading, (third-IsReading, tt)))
