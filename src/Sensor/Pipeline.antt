-- ===== src/Sensor/Pipeline.antt =====
-- A reading on its way from a sensor's message into the sum that the processor sends.
use communicate_core.Common.{ℕ, zero, suc, ◌+◌, ◌*◌, ◌≤◌, ◌<◌, ◌≡◌, ◌⊎◌, List, some, arith, length}
use communicate_core.Memory.{
  byte_at, peek, IsBytes, peek-lt, length-poke, peek-poke_self, peek-poke_apart,
  byte_at-poke_outside,
}
use communicate_core.Command.Ids.{sizeof_sensor_data}
use communicate_core.Handler.{Pointer}
use communicate_core.Handler.Effect.{effect, with_two, with_three}
use communicate_core.Sensor.Readings.{Sensor, extern1, extern2, extern3, extern4, id_of, stored}
use communicate_core.Sensor.Collector.{Collector, collect_frame}
use communicate_core.Sensor.Collector.Frames.{
  IsWell, receive_size, payload_of, command_of, collected, received-IsBytes,
  collect_frame-collected, collected-IsWell,
}
use communicate_core.Sensor.Processing.{
  Arithmetic, Processor, woken, processing_round, send_data_size,
}
use communicate_core.Sensor.Processing.Results.{IsSum, processing_round-IsSum}

-- Where a sensor's member starts in a `SENSOR_DATA`, and how many doubles it has.
abbrev pub place : Sensor → ℕ
place extern1 = 0
place extern2 = 24
place extern3 = 48
place extern4 = 64

abbrev pub doubles : Sensor → ℕ
doubles extern3 = 2
doubles s = 3

two_double :
    (p : Pointer) (mem : List ℕ) (to k : ℕ)
    → IsBytes p.mem
    → to + 16 ≤ length mem
    → k < 2
    → peek 8 (with_two p mem to) (to + 8 * k) ≡ peek 8 p.mem (p.at + 8 * k)
two_double p mem to zero b h q =
    grind (arith, peek-lt 8 p.mem (p.at + 0) b, length-poke, peek-poke_self, peek-poke_apart)
two_double p mem to (suc zero) b h q =
    grind (arith, peek-lt 8 p.mem (p.at + 8) b, length-poke, peek-poke_self, peek-poke_apart)
two_double p mem to (suc (suc k)) b h q = absurd (omega arith)

three_double :
    (p : Pointer) (mem : List ℕ) (to k : ℕ)
    → IsBytes p.mem
    → to + 24 ≤ length mem
    → k < 3
    → peek 8 (with_three p mem to) (to + 8 * k) ≡ peek 8 p.mem (p.at + 8 * k)
three_double p mem to zero b h q =
    grind (arith, peek-lt 8 p.mem (p.at + 0) b, length-poke, peek-poke_self, peek-poke_apart)
three_double p mem to (suc zero) b h q =
    grind (arith, peek-lt 8 p.mem (p.at + 8) b, length-poke, peek-poke_self, peek-poke_apart)
three_double p mem to (suc (suc zero)) b h q =
    grind (arith, peek-lt 8 p.mem (p.at + 16) b, length-poke, peek-poke_self, peek-poke_apart)
three_double p mem to (suc (suc (suc k))) b h q = absurd (omega arith)

-- The reading of `s` in a message's payload is stored, and nothing else of the shared data changes.
pub record IsStored (s : Sensor) (payload : Pointer) (before after : List ℕ) : Type 0 where
  pub reading :
      (k : ℕ)
      → k < doubles s
      → peek 8 after (place s + 8 * k) ≡ peek 8 payload.mem (payload.at + 8 * k)
  pub elsewhere :
      (j : ℕ) → (j < place s) ⊎ (place s + 8 * doubles s ≤ j) → byte_at after j ≡ byte_at before j

pub stored-IsStored :
    (s : Sensor) (p : Pointer) (mem : List ℕ)
    → IsBytes p.mem
    → length mem ≡ sizeof_sensor_data
    → IsStored s p mem (stored s p mem)
unfolding effect
stored-IsStored extern1 p mem b whole = record {
  reading = λ k q. three_double p mem 0 k b (omega arith) q;
  elsewhere = λ j o. grind (arith, byte_at-poke_outside);
}
stored-IsStored extern2 p mem b whole = record {
  reading = λ k q. three_double p mem 24 k b (omega arith) q;
  elsewhere = λ j o. grind (arith, byte_at-poke_outside);
}
stored-IsStored extern3 p mem b whole = record {
  reading = λ k q. two_double p mem 48 k b (omega arith) q;
  elsewhere = λ j o. grind (arith, byte_at-poke_outside);
}
stored-IsStored extern4 p mem b whole = record {
  reading = λ k q. three_double p mem 64 k b (omega arith) q;
  elsewhere = λ j o. grind (arith, byte_at-poke_outside);
}

-- A message with a sensor's command puts that sensor's doubles into its member of the shared data
-- and changes nothing else there; the processor's iteration that is woken next sends a frame with
-- the sum of all eleven readings as they then are.
pub reading_summed :
    (a : Arithmetic) (c : Collector) (p : Processor) (s : Sensor) (bytes : List ℕ)
    → IsWell c
    → IsBytes bytes
    → length bytes ≤ receive_size
    → command_of c bytes ≡ id_of s
    → length p.sensor_data ≡ sizeof_sensor_data
    → length p.packet ≡ send_data_size
    → (c' : Collector) × (p' : Processor) × (collect_frame c bytes ≡ some c')
      × IsStored s (payload_of c bytes) c.sensor_data c'.sensor_data
      × (processing_round a p woken c'.sensor_data ≡ some p')
      × IsSum a c'.sensor_data p'.packet
reading_summed a c p s bytes well b fits same held room =
    let after = collected c bytes in
    let (idle, p', sent, sum, effects, held', same_sock) =
      processing_round-IsSum a p after.sensor_data held room
        (collected-IsWell c bytes well b fits).sensor_size in
    (
      after,
      p',
      collect_frame-collected c bytes well b fits,
      rw same (
          stored-IsStored s (payload_of c bytes) c.sensor_data
            (received-IsBytes c bytes well b fits) well.sensor_size),
      sent,
      sum,
    )
