-- ===== src/Sensor/Latest/Refinement.antt =====
-- The collector against the latest readings.
pub mod Tests
use communicate_core.Common.{◌≡◌, refl, List, [], ◌∷◌, some, arith}
use communicate_core.Sensor.Readings.{extern1, extern2, extern3, extern4}
use communicate_core.Sensor.Collector.{Collector}
use communicate_core.Sensor.Collector.Frames.{
  IsWell, collected, collect_frame-collected, collected-IsWell,
}
use communicate_core.Sensor.Processing.Results.{readings}
use communicate_core.Sensor.Latest.Defs.{
  Latest, view, Reading, AllReadings, update, replay, collect_all, in_order,
}
use communicate_core.Sensor.Latest.Steps.{Agrees, replay_cong, Agrees-trans, view-collected}

pub collect_all-Agrees :
    (rs : List Reading) (c : Collector)
    → IsWell c
    → AllReadings rs
    → (last : Collector) × (collect_all c rs ≡ some last)
      × IsWell last
      × Agrees (view last.sensor_data) (replay rs (view c.sensor_data))
collect_all-Agrees [] c well all = (c, refl, well, λ s k q. refl)
collect_all-Agrees (r ∷ rs) c well all =
    let one = all.0 in
    let next = collected c r.bytes in
    let (last, done, well', agrees) =
      collect_all-Agrees rs next (collected-IsWell c r.bytes well one.are_bytes one.fits) all.1 in
    (
      last,
      rw (collect_frame-collected c r.bytes well one.are_bytes one.fits) done,
      well',
      Agrees-trans (view last.sensor_data) (replay rs (view next.sensor_data))
          (replay rs (update (view c.sensor_data) r)) agrees
          (replay_cong rs (view next.sensor_data) (update (view c.sensor_data) r)
            (view-collected c r well one)),
    )

pub in_order_cong : (f g : Latest) → Agrees f g → in_order f ≡ in_order g
in_order_cong f g h = ground (
  arith,
  h extern1 0 (omega arith),
  h extern1 1 (omega arith),
  h extern1 2 (omega arith),
  h extern2 0 (omega arith),
  h extern2 1 (omega arith),
  h extern2 2 (omega arith),
  h extern3 0 (omega arith),
  h extern3 1 (omega arith),
  h extern4 0 (omega arith),
  h extern4 1 (omega arith),
  h extern4 2 (omega arith),
)

-- For any sequence of sensors' messages the collector implements the function from sensors to their
-- latest readings: it takes all of them, stays well, and the eleven doubles of the shared
-- SENSOR_DATA are those of the function that each message has updated at its sensor, in the order
-- of arrival.
pub collector_refines_latest :
    (rs : List Reading) (c : Collector)
    → IsWell c
    → AllReadings rs
    → (last : Collector) × (collect_all c rs ≡ some last)
      × IsWell last
      × (readings last.sensor_data ≡ in_order (replay rs (view c.sensor_data)))
collector_refines_latest rs c well all =
    let (last, done, well', agrees) = collect_all-Agrees rs c well all in
    (
      last,
      done,
      well',
      in_order_cong (view last.sensor_data) (replay rs (view c.sensor_data)) agrees,
    )
