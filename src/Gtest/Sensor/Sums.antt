-- ===== src/Gtest/Sensor/Sums.antt =====
-- What the test of gtest-sensor-integration.cc expects of each result.
use mathlib.Core.Option.{some-injective}
use mathlib.Core.Path.{subst}
use communicate_core.Common.{
  ℕ, zero, suc, ◌<◌, ◌≡◌, ◌⊎◌, inl, inr, sym, ap, ◌∙◌, List, [], ◌∷◌, Bool-cases, some, arith,
  length, take_all, replicate,
}
use communicate_core.Memory.{peek, IsBytes}
use communicate_core.Command.Ids.{sizeof_sensor_data}
use communicate_core.Frame.Layout.{frame_size}
use communicate_core.Sensor.Readings.{Sensor}
use communicate_core.Sensor.Pipeline.{doubles}
use communicate_core.Sensor.Collector.{Collector}
use communicate_core.Sensor.Collector.Frames.{IsWell}
use communicate_core.Sensor.Latest.Defs.{
  Latest, view, is_same, Reading, IsReading, AllReadings, update, replay, collect_all, in_order,
}
use communicate_core.Sensor.Latest.Steps.{is_same_lem, is_same_refl}
use communicate_core.Sensor.Latest.Refinement.{collector_refines_latest, in_order_cong}
use communicate_core.Sensor.Processing.{
  Arithmetic, Processor, woken, processing_round, send_data_size,
}
use communicate_core.Sensor.Processing.Results.{total, readings, processing_round-IsSum}
use communicate_core.Gtest.Sensor.Defs.{sensor_frame, send_data_repeated}
use communicate_core.Gtest.Sensor.Payload.{payload_size, AreDoubles}
use communicate_core.Gtest.Sensor.Frames.{IsSensorFrame, sensor_frame-checked}

abbrev pub HasReading : Reading → List Reading → Type 0
HasReading r [] = ⊥
HasReading r (x ∷ xs) = (r ≡ x) ⊎ HasReading r xs

-- Each message is one that its sensor sends, for the sensors' frames.
abbrev pub AllSent : (Sensor → List ℕ) → List Reading → Type 0
AllSent frames [] = Unit {0}
AllSent frames (r ∷ rs) =
    HasReading r
      (send_data_repeated r.sensor (frames r.sensor) (frame_size (payload_size r.sensor)))
    × AllSent frames rs

abbrev pub Occurs : Sensor → List Reading → Type 0
Occurs s [] = ⊥
Occurs s (r ∷ rs) = (r.sensor ≡ s) ⊎ Occurs s rs

HasReading-replicate : (n : ℕ) (r x : Reading) → HasReading r (replicate n x) → r ≡ x
HasReading-replicate zero r x h = absurd h
HasReading-replicate (suc n) r x (inl e) = e
HasReading-replicate (suc n) r x (inr h) = HasReading-replicate n r x h

-- A sensor's doubles are those of `v`.
abbrev pub Holds : Latest → Latest → Sensor → Type 0
Holds v f s = (k : ℕ) → k < doubles s → f s k ≡ v s k

module _ (v : Latest) (packets frames : Sensor → List ℕ)
    (made : (s : Sensor) → IsSensorFrame s (v s) (packets s) (frames s)) where
  sent_bytes :
      (r : Reading)
      → HasReading r
          (send_data_repeated r.sensor (frames r.sensor) (frame_size (payload_size r.sensor)))
      → r.bytes ≡ frames r.sensor
  unfolding send_data_repeated
  sent_bytes r h =
      ap (λ (x : Reading). x.bytes) (HasReading-replicate 10 r _ h)
      ∙ take_all (frame_size (payload_size r.sensor)) (frames r.sensor)
          (omega (arith, (made r.sensor).size))

  pub all_readings : (rs : List Reading) → AllSent frames rs → AllReadings rs
  all_readings [] h = tt
  all_readings (r ∷ rs) h = (
    subst (λ xs. IsReading (record { sensor = r.sensor; bytes = xs })) (sym (sent_bytes r h.0))
        (made r.sensor).reading,
    all_readings rs h.1,
  )

  update-Holds :
      (f : Latest) (r : Reading) (s : Sensor)
      → r.bytes ≡ frames r.sensor
      → (r.sensor ≡ s) ⊎ Holds v f s
      → Holds v (update f r) s
  update-Holds f r s e h k q = elim (Bool-cases (is_same r.sensor s)) [
    | inl same ↦
        let here = is_same_lem r.sensor s same in
        rw (same, e) (rw (sym here) ((made r.sensor).values k (rw here q)))
    | inr other ↦ elim h [
      | inl here ↦ absurd (cc (other, is_same_refl s, ap (λ t. is_same t s) here))
      | inr before ↦ rw other (before k q)
    ]
  ]

  pub replay-Holds :
      (rs : List Reading) (f : Latest) (s : Sensor)
      → AllSent frames rs
      → Occurs s rs ⊎ Holds v f s
      → Holds v (replay rs f) s
  replay-Holds [] f s all (inl none_there) = absurd none_there
  replay-Holds [] f s all (inr holds) = holds
  replay-Holds (r ∷ rs) f s all (inl (inl here)) =
      replay-Holds rs (update f r) s all.1
        (inr (update-Holds f r s (sent_bytes r all.0) (inl here)))
  replay-Holds (r ∷ rs) f s all (inl (inr later)) = replay-Holds rs (update f r) s all.1 (inl later)
  replay-Holds (r ∷ rs) f s all (inr holds) =
      replay-Holds rs (update f r) s all.1
        (inr (update-Holds f r s (sent_bytes r all.0) (inr holds)))

-- What a sensor has made is a frame with its doubles.
pub made_frame :
    (s : Sensor) (value : ℕ → ℕ) (buffer frame : List ℕ)
    → IsBytes buffer
    → length buffer ≡ frame_size (payload_size s)
    → AreDoubles (doubles s) value
    → sensor_frame s value buffer ≡ some frame
    → (packet : List ℕ) × IsSensorFrame s value packet frame
made_frame s value buffer frame bytes sized are built =
    let (packet, found, first, second, is) = sensor_frame-checked s value buffer bytes sized are in
    (
      packet,
      subst (IsSensorFrame s value packet) (some-injective found frame (sym second ∙ built)) is,
    )

-- Both members of the result.
pub record IsExpected (a : Arithmetic) (v : Latest) (packet : List ℕ) : Type 0 where
  pub azimuth : peek 8 packet 11 ≡ total a (in_order v)
  pub elevation : peek 8 packet 19 ≡ total a (in_order v)

module _ (a : Arithmetic) (c : Collector) (p : Processor) (v : Latest)
    (buffers frames : Sensor → List ℕ) (rs : List Reading) where
  -- Four sensors make frames of their own doubles in arrays with any content, and send each of them
  -- repeatedly. Whatever the order in which the messages arrive, and however many of each, once
  -- there is one of every sensor the collector has taken all, and an iteration of the processor
  -- that is woken then sends a result with the sum of the eleven doubles in both members.
  pub four_sensors_summed :
      IsWell c
      → length p.sensor_data ≡ sizeof_sensor_data
      → length p.packet ≡ send_data_size
      → ((s : Sensor) → IsBytes (buffers s))
      → ((s : Sensor) → length (buffers s) ≡ frame_size (payload_size s))
      → ((s : Sensor) → AreDoubles (doubles s) (v s))
      → ((s : Sensor) → sensor_frame s (v s) (buffers s) ≡ some (frames s))
      → AllSent frames rs
      → ((s : Sensor) → Occurs s rs)
      → (last : Collector) × (next : Processor) × (collect_all c rs ≡ some last)
        × (processing_round a p woken last.sensor_data ≡ some next)
        × IsExpected a v next.packet
  four_sensors_summed well held room bytes lengths are built sent occurs =
      let (last, done, well', as_latest) =
        collector_refines_latest rs c well (all_readings v packets frames made rs sent) in
      let (idle, next, woke, sum, effects, kept, same_sock) =
        processing_round-IsSum a p last.sensor_data held room well'.sensor_size in
      let same : readings last.sensor_data ≡ in_order v =
        as_latest
        ∙ in_order_cong (replay rs (view c.sensor_data)) v (λ s.
          replay-Holds v packets frames made rs (view c.sensor_data) s sent (inl (occurs s))) in
      (
        last,
        next,
        done,
        woke,
        record {
          azimuth = sum.azimuth ∙ ap (total a) same;
          elevation = sum.elevation ∙ ap (total a) same;
        },
      )
    where
      packets : Sensor → List ℕ
      packets s =
          (made_frame s (v s) (buffers s) (frames s) (bytes s) (lengths s) (are s) (built s)).0

      made : (s : Sensor) → IsSensorFrame s (v s) (packets s) (frames s)
      made s = (made_frame s (v s) (buffers s) (frames s) (bytes s) (lengths s) (are s) (built s)).1
