-- ===== src/Sensor/Collector/Frames/Tests.antt =====
-- A reading of EXTERN4 at the collector.
use communicate_core.Common.{ℕ, ◌≡◌, refl, List, [], ◌∷◌, some, arith, replicate}
use communicate_core.Memory.{IsBytes, IsBytes-of_all, replicate-IsBytes}
use communicate_core.Sensor.Collector.Defs.{Collector, collect_frame}
use communicate_core.Sensor.Collector.Frames.{IsWell, collected, collect_frame-collected}

abbrev pub start : Collector
start = record {
  server_sock = 3;
  master_set = 4 ∷ 3 ∷ [];
  max_fd = 4;
  clients = [];
  buffer = replicate 128 0;
  sensor_data = replicate 88 0;
  effects = [];
}

pub start-IsWell : IsWell start
start-IsWell = record {
  buffer_size = refl;
  buffer_bytes = replicate-IsBytes 128;
  sensor_size = refl;
  sensor_bytes = replicate-IsBytes 88;
}

abbrev pub reading : List ℕ
reading = 0xF0 ∷ 0xF0 ∷ 24 ∷ 0 ∷ 0 ∷ 0 ∷ 0x24 ∷ 0x10 ∷ 0 ∷ 103 ∷ 0 ∷ 5 ∷ 6 ∷ []

pub reading-IsBytes : IsBytes reading
reading-IsBytes = IsBytes-of_all reading (omega arith)

collect_frame-collected_example : collect_frame start reading ≡ some (collected start reading)
collect_frame-collected_example =
    collect_frame-collected start reading start-IsWell reading-IsBytes (omega arith)
