-- ===== src/Sensor/Latest/Defs.antt =====
-- The shared SENSOR_DATA as a function, the latest reading of each sensor, and the messages that
-- change it.
use communicate_core.Common.{
  ℕ, ◌+◌, ◌*◌, ◌≤◌, ◌≡◌, List, [], ◌∷◌, Bool, true, false, Option, some, ◌>>=◌, length,
  if◌then◌else◌, short_to_int,
}
use communicate_core.Memory.{peek, IsBytes}
use communicate_core.Sensor.Readings.{Sensor, extern1, extern2, extern3, extern4, id_of}
use communicate_core.Sensor.Collector.{Collector, collect_frame}
use communicate_core.Sensor.Collector.Frames.{receive_size}
use communicate_core.Sensor.Pipeline.{place, doubles}

-- The abstract state: the doubles of each sensor.
abbrev pub Latest : Type 0
Latest = Sensor → ℕ → ℕ

-- What the bytes of a SENSOR_DATA stand for.
abbrev pub view : List ℕ → Latest
view mem s k = peek 8 mem (place s + 8 * k)

abbrev pub is_same : Sensor → Sensor → Bool
is_same extern1 extern1 = true
is_same extern2 extern2 = true
is_same extern3 extern3 = true
is_same extern4 extern4 = true
is_same s t = false

-- A message with a sensor's doubles: a whole header with its command, and the doubles behind it.
pub record Reading : Type 0 where
  pub sensor : Sensor
  pub bytes : List ℕ

abbrev pub double_of : Reading → ℕ → ℕ
double_of r k = peek 8 r.bytes (11 + 8 * k)

pub record IsReading (r : Reading) : Type 0 where
  pub are_bytes : IsBytes r.bytes
  pub whole : 11 + 8 * doubles r.sensor ≤ length r.bytes
  pub fits : length r.bytes ≤ receive_size
  pub command : short_to_int (peek 2 r.bytes 9) ≡ id_of r.sensor

abbrev pub AllReadings : List Reading → Type 0
AllReadings [] = Unit {0}
AllReadings (r ∷ rs) = IsReading r × AllReadings rs

-- The abstract operation, and a sequence of it.
abbrev pub update : Latest → Reading → Latest
update f r s k = if is_same r.sensor s then double_of r k else f s k

abbrev pub replay : List Reading → Latest → Latest
replay [] f = f
replay (r ∷ rs) f = replay rs (update f r)

-- The same messages at the collector.
abbrev pub collect_all : Collector → List Reading → Option Collector
collect_all c [] = some c
collect_all c (r ∷ rs) = do next ← collect_frame c r.bytes; collect_all next rs

-- The eleven doubles in the order of the struct.
abbrev pub in_order : Latest → List ℕ
in_order f =
    f extern1 0
    ∷ f extern1 1
    ∷ f extern1 2
    ∷ f extern2 0
    ∷ f extern2 1
    ∷ f extern2 2
    ∷ f extern3 0
    ∷ f extern3 1
    ∷ f extern4 0
    ∷ f extern4 1
    ∷ f extern4 2
    ∷ []
