-- ===== src/Sensor/Processing/Results/Tests.antt =====
-- The processing thread with doubles that add as numbers.
use communicate_core.Common.{◌+◌, ◌%◌, ◌^◌, [], arith, replicate}
use communicate_core.Sensor.Processing.Defs.{Arithmetic, Processor}

abbrev pub integers : Arithmetic
integers = record { add = λ a b. (a + b) % 2 ^ 64; add-lt = λ a b. omega arith }

abbrev pub start : Processor
start = record {
  sensor_data = replicate 88 0;
  packet = replicate 30 0;
  client_sock = 9;
  effects = [];
}
