-- ===== src/Delivery/Tests.antt =====
-- Two readings, to the main loop of the control process.
use communicate_core.Common.{◌≡◌, refl, [], ◌∷◌, ◌++◌, true, false, some, replicate}
use communicate_core.Command.{get_send_cmd_size}
use communicate_core.Sensor.Data.{Effect}
use communicate_core.Sensor.Collector.{Collector}
use communicate_core.Sensor.Collector.Frames.Tests.{start, start-IsWell}
use communicate_core.Sensor.Processing.{Processor, woken, processing_round, send_data_size}
use communicate_core.Sensor.Processing.Results.{total}
use communicate_core.Sensor.Processing.Results.Tests.{integers, start as processor}
use communicate_core.Sensor.Latest.Defs.{view, replay, collect_all, in_order}
use communicate_core.Sensor.Latest.Refinement.Tests.{
  first, second, first-IsReading, second-IsReading,
}
use communicate_core.Control.{message, forward, Control, ready, main_round}
use communicate_core.Delivery.{IsDelivered, HasResult, readings-IsDelivered}

abbrev control : Control
control = record {
  buffer = replicate 128 0;
  cmd_pipe = [];
  ctrl_pipe = [];
  cmd_read = [];
  ctrl_read = [];
}

readings-IsDelivered_example :
    (last : Collector) × (collect_all start (first ∷ second ∷ []) ≡ some last)
    × (after : Processor) × (processing_round integers processor woken last.sensor_data
        ≡ some after)
    × (after.effects ≡ [] ++ (Effect.send 9 after.packet ∷ []))
    × (next : Control) × (main_round
          (record control { ctrl_pipe = forward (message after.packet) control.ctrl_pipe })
          (ready false true)
        ≡ some next)
    × IsDelivered after.packet control next
    × HasResult
        (total integers (in_order (replay (first ∷ second ∷ []) (view start.sensor_data))))
        next.buffer
unfolding send_data_size get_send_cmd_size
readings-IsDelivered_example =
    readings-IsDelivered integers start processor control (first ∷ second ∷ []) start-IsWell
      (first-IsReading, (second-IsReading, tt)) refl refl refl refl
