-- ===== src/Delivery.antt =====
-- The way of the readings through both processes: sensor-collector.c and sensor-processing.c of
-- process2, then recv-processing-data.c and the main loop of process3.c.
mod Tests
use mathlib.Core.List.{append-nil}
use mathlib.Core.Path.{subst}
use communicate_core.Common.{
  ℕ, ◌+◌, ◌-◌, ◌≤◌, ◌<◌, ◌≡◌, refl, sym, ap, ◌∙◌, List, [], ◌∷◌, ◌++◌, true, false, some, arith,
  length, drop_short,
}
use communicate_core.Memory.{byte_at, peek, peek_cong}
use communicate_core.Command.{get_send_cmd_size}
use communicate_core.Command.Ids.{sizeof_sensor_data}
use communicate_core.Sensor.Data.{Effect}
use communicate_core.Sensor.Collector.{Collector}
use communicate_core.Sensor.Collector.Frames.{IsWell}
use communicate_core.Sensor.Processing.{
  Arithmetic, Processor, woken, processing_round, send_data_size,
}
use communicate_core.Sensor.Processing.Results.{total, processing_round-IsSum}
use communicate_core.Sensor.Latest.Defs.{view, Reading, AllReadings, replay, collect_all, in_order}
use communicate_core.Sensor.Latest.Refinement.{collector_refines_latest}
use communicate_core.Control.{
  data_size, message, forward, Control, ready, read_cmd, read_ctrl, main_round,
}
use communicate_core.Control.Reads.{read_pipe-IsRead}

-- A message in front of the main loop's buffer, with a terminator behind it.
pub record IsDelivered (packet : List ℕ) (k next : Control) : Type 0 where
  pub read : next.ctrl_read ≡ k.ctrl_read ++ packet
  pub empty : next.ctrl_pipe ≡ []
  pub front : (j : ℕ) → j < length packet → byte_at next.buffer j ≡ byte_at packet j
  pub terminated : byte_at next.buffer (length packet) ≡ 0

forwarded :
    (packet pipe : List ℕ) → 0 < length packet → pipe ≡ [] → forward (message packet) pipe ≡ packet
unfolding forward
forwarded packet pipe some_there empty = ground (arith, empty)

-- What the thread puts into the empty pipe, the next read takes whole.
forward-IsDelivered :
    (packet : List ℕ) (k : Control)
    → 0 < length packet
    → length packet ≤ data_size - 1
    → length k.buffer ≡ data_size
    → k.ctrl_pipe ≡ []
    → (next : Control) × (main_round
          (record k { ctrl_pipe = forward (message packet) k.ctrl_pipe })
          (ready false true)
        ≡ some next)
      × IsDelivered packet k next
unfolding main_round read_cmd read_ctrl
forward-IsDelivered packet k some_there short whole empty =
    let (r, done, is) = read_pipe-IsRead k.buffer packet whole in
    let nothing_left : r.pipe ≡ [] = is.rest ∙ drop_short (data_size - 1) packet short in
    let all : r.bytes ≡ packet =
      sym (append-nil r.bytes) ∙ ap (λ xs. r.bytes ++ xs) (sym nothing_left) ∙ is.splits in
    (
      record k { buffer = r.buffer; ctrl_pipe = r.pipe; ctrl_read = k.ctrl_read ++ r.bytes },
      rw (forwarded packet k.ctrl_pipe some_there empty, done) refl,
      record {
        read = ap (λ xs. k.ctrl_read ++ xs) all;
        empty = nothing_left;
        front = λ j q. is.front j (rw all q) ∙ ap (λ xs. byte_at xs j) all;
        terminated =
            subst (λ xs. byte_at r.buffer (length xs) ≡ 0) all (is.terminated (rw all some_there));
      },
    )

packet_size : send_data_size ≡ 30
unfolding send_data_size get_send_cmd_size
packet_size = refl

-- The members of a result in the main loop's buffer.
pub record HasResult (sum : ℕ) (buffer : List ℕ) : Type 0 where
  pub azimuth : peek 8 buffer 11 ≡ sum
  pub elevation : peek 8 buffer 19 ≡ sum

module _ (a : Arithmetic) (c : Collector) (p : Processor) (k : Control) (rs : List Reading) where
  -- Sensors' messages come to the collector, in any number and order, then the processor is woken,
  -- its message comes to the control process, and the main loop reads the pipe, which was empty.
  -- Then the loop has read exactly the processor's packet, which is in front of its buffer, with
  -- the sum of the eleven latest readings as azimuth and as elevation, and terminated.
  pub readings-IsDelivered :
      IsWell c
      → AllReadings rs
      → length p.sensor_data ≡ sizeof_sensor_data
      → length p.packet ≡ send_data_size
      → length k.buffer ≡ data_size
      → k.ctrl_pipe ≡ []
      → (last : Collector) × (collect_all c rs ≡ some last)
        × (after : Processor) × (processing_round a p woken last.sensor_data ≡ some after)
        × (after.effects ≡ p.effects ++ (Effect.send p.client_sock after.packet ∷ []))
        × (next : Control) × (main_round
              (record k { ctrl_pipe = forward (message after.packet) k.ctrl_pipe })
              (ready false true)
            ≡ some next)
        × IsDelivered after.packet k next
        × HasResult (total a (in_order (replay rs (view c.sensor_data)))) next.buffer
  readings-IsDelivered well all held room whole empty =
      let (last, done, well', as_latest) = collector_refines_latest rs c well all in
      let (idle, after, woke, sum, effects, kept, same_sock) =
        processing_round-IsSum a p last.sensor_data held room well'.sensor_size in
      let sized : length after.packet ≡ 30 = sum.size ∙ packet_size in
      let (next, came, is) =
        forward-IsDelivered after.packet k (omega (arith, sized)) (omega (arith, sized)) whole
          empty in
      (
        last,
        done,
        after,
        woke,
        effects,
        next,
        came,
        is,
        record {
          azimuth =
              peek_cong 8 next.buffer after.packet 11
                (λ j low high. is.front j (omega (arith, sized)))
              ∙ sum.azimuth
              ∙ ap (total a) as_latest;
          elevation =
              peek_cong 8 next.buffer after.packet 19
                (λ j low high. is.front j (omega (arith, sized)))
              ∙ sum.elevation
              ∙ ap (total a) as_latest;
        },
      )
