-- ===== src/Sensor/Latest/Steps.antt =====
-- A message at the collector as an update of the latest readings.
use communicate_core.Common.{
  ℕ, ◌+◌, ◌*◌, ◌≤◌, ◌<◌, ◌≡◌, ◌⊎◌, inl, inr, refl, sym, ap, ◌∙◌, List, [], ◌∷◌, Bool-cases, true,
  false, arith, length, short_to_int,
}
use communicate_core.Memory.{peek, peek_cong, copied_inside}
use communicate_core.Sensor.Readings.{Sensor, extern1, extern2, extern3, extern4, id_of}
use communicate_core.Sensor.Collector.{Collector}
use communicate_core.Sensor.Collector.Frames.{
  IsWell, receive_size, received, payload_of, command_of, collected, received-IsBytes,
}
use communicate_core.Sensor.Pipeline.{place, doubles, IsStored, stored-IsStored}
use communicate_core.Sensor.Latest.Defs.{Latest, view, is_same, Reading, IsReading, update, replay}

-- Two states with the same doubles.
abbrev pub Agrees : Latest → Latest → Type 0
Agrees f g = (s : Sensor) (k : ℕ) → k < doubles s → f s k ≡ g s k

pub is_same_lem : (s t : Sensor) → is_same s t ≡ true → s ≡ t
is_same_lem extern1 extern1 h = refl
is_same_lem extern2 extern2 h = refl
is_same_lem extern3 extern3 h = refl
is_same_lem extern4 extern4 h = refl
is_same_lem s t h = cc

is_same_apart :
    (s t : Sensor) (k : ℕ)
    → is_same s t ≡ false
    → k < doubles t
    → (place t + 8 * k + 8 ≤ place s) ⊎ (place s + 8 * doubles s ≤ place t + 8 * k)
is_same_apart extern1 extern1 k h q = absurd (cc h)
is_same_apart extern2 extern2 k h q = absurd (cc h)
is_same_apart extern3 extern3 k h q = absurd (cc h)
is_same_apart extern4 extern4 k h q = absurd (cc h)
is_same_apart s t k h q = omega arith

-- A message's own bytes are what the receive buffer has where it was received.
peek-received :
    (c : Collector) (bytes : List ℕ) (m at : ℕ)
    → IsWell c
    → length bytes ≤ receive_size
    → at + m ≤ length bytes
    → peek m (received c bytes) at ≡ peek m bytes at
peek-received c bytes m at well fits room = peek_cong m (received c bytes) bytes at λ j low high.
    copied_inside (length bytes) c.buffer bytes j (omega arith) (omega (arith, well.buffer_size))
      (omega arith)

module _ (c : Collector) (r : Reading) (well : IsWell c) (reading : IsReading r) where
  command_of-reading : command_of c r.bytes ≡ id_of r.sensor
  command_of-reading =
      ap short_to_int (peek-received c r.bytes 2 9 well reading.fits (omega (arith, reading.whole)))
      ∙ reading.command

  collected-IsStored :
      IsStored r.sensor (payload_of c r.bytes) c.sensor_data (collected c r.bytes).sensor_data
  collected-IsStored = rw command_of-reading (
      stored-IsStored r.sensor (payload_of c r.bytes) c.sensor_data
        (received-IsBytes c r.bytes well reading.are_bytes reading.fits) well.sensor_size)

  pub view-collected :
      Agrees (view (collected c r.bytes).sensor_data) (update (view c.sensor_data) r)
  view-collected t k q = elim (Bool-cases (is_same r.sensor t)) [
    | inl same ↦
        let e = is_same_lem r.sensor t same in
        rw same (
          rw (sym e) (
            collected-IsStored.reading k (rw e q)
            ∙ peek-received c r.bytes 8 (11 + 8 * k) well reading.fits
                (let low : k < doubles r.sensor = rw e q in omega (arith, reading.whole))))
    | inr other ↦ rw other (
        peek_cong 8 _ c.sensor_data (place t + 8 * k) λ j low high.
          collected-IsStored.elsewhere j (omega (arith, is_same_apart r.sensor t k other q)))
  ]

pub update_cong : (f g : Latest) (r : Reading) → Agrees f g → Agrees (update f r) (update g r)
update_cong f g r h s k q = ground (arith, h s k q)

pub replay_cong :
    (rs : List Reading) (f g : Latest) → Agrees f g → Agrees (replay rs f) (replay rs g)
replay_cong [] f g h = h
replay_cong (r ∷ rs) f g h = replay_cong rs (update f r) (update g r) (update_cong f g r h)

pub Agrees-trans : (f g h : Latest) → Agrees f g → Agrees g h → Agrees f h
Agrees-trans f g h p q s k r = p s k r ∙ q s k r

pub is_same_refl : (s : Sensor) → is_same s s ≡ true
is_same_refl extern1 = refl
is_same_refl extern2 = refl
is_same_refl extern3 = refl
is_same_refl extern4 = refl
