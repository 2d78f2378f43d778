-- ===== src/Sensor/Locks/Lost.antt =====
-- Which signals the processor notices.
pub mod Tests
use mathlib.Core.Path.{subst}
use mathlib.Core.List.{append_assoc}
use communicate_core.Common.{zero, suc, ◌<◌, set, ◌+◌, sym, ap, ◌∙◌, List, map, none, some, arith}
use communicate_core.Memory.{copied, store_in_range, length-poke}
use communicate_core.Handler.Dispatch.{expected_log}
use communicate_core.Handler.Stores.{Store, run_stores, AllWithin, run_stores-stores}
use communicate_core.Sensor.Collector.{Collector}
use communicate_core.Sensor.Collector.Frames.{
  received as receive_buffer, payload_of, shared_of, command_of,
}
use communicate_core.Sensor.Processing.{Processor, timed_out, send_result}
use communicate_core.Sensor.Processing.Results.{processing_round-IsSum}
use communicate_core.Sensor.Locks.Processor.{round-after_copy}
use communicate_core.Sensor.Locks.Defs.{
  collecting, processing, serving, received, dispatching, dispatched, leaving, entering, returned,
  copying, Machine, stores_of, assigns, ends, signals, unlocks, enters, waits, times_out, regains,
  gives_up, begins, copies, releases, sends, Step,
}
use communicate_core.Sensor.Locks.Relation.{CollectorMatches, set-copied}
