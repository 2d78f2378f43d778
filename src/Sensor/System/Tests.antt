-- ===== src/Sensor/System/Tests.antt =====
-- A reading, and a time-out of the processor.
use communicate_core.Common.{◌+◌, ◌≡◌, refl, [], true, some, arith, replicate}
use communicate_core.Command.{get_send_cmd_size}
use communicate_core.Sensor.Collector.{Collector, ready, serve_fd, receive_from, collector_round}
use communicate_core.Sensor.Collector.Frames.{collected, collect_frame-collected}
use communicate_core.Sensor.Collector.Frames.Tests.{start, start-IsWell, reading, reading-IsBytes}
use communicate_core.Sensor.Collector.Rounds.Tests.{calls, calls-IsSane}
use communicate_core.Sensor.Processing.{
  Processor, timed_out, woken, processing_round, send_data_size,
}
use communicate_core.Sensor.Processing.Results.Tests.{integers}
use communicate_core.Sensor.System.{
  System, Reach, here, next, serves, waits, IsSound, reached-IsSound,
}

abbrev pub both : System
both = record {
  collector = start;
  processor = record {
    sensor_data = replicate 88 0;
    packet = replicate 30 0;
    client_sock = 9;
    effects = [];
  };
}

pub both-IsSound : IsSound 6 both
unfolding send_data_size get_send_cmd_size
both-IsSound = record {
  well = start-IsWell;
  covered = omega arith;
  bounded = omega arith;
  held = refl;
  room = refl;
  results = tt;
}

-- A reading of EXTERN4 arrives, and the processor times out.
abbrev with_reading : System
with_reading = record both { collector = collected start reading }

with_reading_reached : Reach integers 6 both with_reading
unfolding serve_fd receive_from processing_round
with_reading_reached =
    next
      (next here (
        serves both (λ fd. true) calls 4 (collected start reading) calls-IsSane (omega arith)
          (collect_frame-collected start reading start-IsWell reading-IsBytes (omega arith))))
      (waits with_reading timed_out with_reading.processor refl)

reached-IsSound_example :
    IsSound 6 with_reading
    × ((c : Collector) × (collector_round (6 + 2) with_reading.collector (ready (λ fd. true)) calls
          ≡ some (some c)))
    × ((p : Processor) × (processing_round integers with_reading.processor woken
            with_reading.collector.sensor_data
          ≡ some p))
reached-IsSound_example =
    reached-IsSound integers 6 both with_reading (ready (λ fd. true)) calls woken both-IsSound
      calls-IsSane (omega arith) with_reading_reached
