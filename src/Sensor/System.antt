-- ===== src/Sensor/System.antt =====
-- The collector and the processor over the shared sensor data, in every order of their steps.
pub mod Tests
pub mod Messages
use mathlib.Core.Option.{some-injective}
use communicate_core.Common.{ℕ, ◌+◌, ◌≤◌, ◌≡◌, sym, ◌∙◌, List, [], ◌∷◌, ◌++◌, Bool, some, length}
use communicate_core.Memory.{peek}
use communicate_core.Command.Ids.{processing_data_id, sizeof_sensor_data}
use communicate_core.Frame.Layout.{no_id}
use communicate_core.Frame.Spec.{IsFrame}
use communicate_core.Frame.Build.Outcome.{answer_size}
use communicate_core.Sensor.Data.{Effect, log, signal, close, send}
use communicate_core.Sensor.Collector.{Collector, Outside, Selected, serve_fd, collector_round}
use communicate_core.Sensor.Collector.Frames.{IsWell}
use communicate_core.Sensor.Collector.Rounds.{
  IsSane, AcceptedLe, IsCovered, serve_fd-IsKept, collector_round-IsKept,
}
use communicate_core.Sensor.Processing.{
  Arithmetic, Processor, Waited, timed_out, woken, processing_round, send_data_size,
}
use communicate_core.Sensor.Processing.Results.{processing_round-IsSum}

pub record System : Type 0 where
  pub collector : Collector
  pub processor : Processor

-- What the collector does for a descriptor, or an iteration of the processor: between these the
-- lock of the shared data is free. The descriptor is any, at any time, so the order of the
-- collector's loop is among them. The descriptors are at most `m`, a limit of the system.
pub data Step (a : Arithmetic) (m : ℕ) : System → System → Type 0 where
  serves :
      (s : System) (is_ready : ℕ → Bool) (outside : Outside) (fd : ℕ) (next : Collector)
      → IsSane outside
      → AcceptedLe m outside.accepted
      → serve_fd s.collector is_ready outside fd ≡ some next
      → Step a m s (record s { collector = next })
  waits :
      (s : System) (w : Waited) (next : Processor)
      → processing_round a s.processor w s.collector.sensor_data ≡ some next
      → Step a m s (record s { processor = next })

pub data Reach (a : Arithmetic) (m : ℕ) (s : System) : System → Type 0 where
  here : Reach a m s s
  next : {t u : System} → Reach a m s t → Step a m t u → Reach a m s u

-- A result frame: one sum in both members.
pub record IsResult (packet : List ℕ) : Type 0 where
  pub size : length packet ≡ send_data_size
  pub frame : IsFrame no_id (answer_size processing_data_id) packet
  pub command : peek 2 packet 9 ≡ processing_data_id
  pub one_sum : peek 8 packet 11 ≡ peek 8 packet 19

abbrev pub AllResults : List Effect → Type 0
AllResults [] = Unit {0}
AllResults (send fd bytes ∷ es) = IsResult bytes × AllResults es
AllResults (e ∷ es) = AllResults es

AllResults-append :
    (xs : List Effect) (fd : ℕ) (bytes : List ℕ)
    → AllResults xs
    → IsResult bytes
    → AllResults (xs ++ (Effect.send fd bytes ∷ []))
AllResults-append [] fd bytes h r = (r, tt)
AllResults-append (send f b ∷ xs) fd bytes h r = (h.0, AllResults-append xs fd bytes h.1 r)
AllResults-append (log l ∷ xs) fd bytes h r = AllResults-append xs fd bytes h r
AllResults-append (signal ∷ xs) fd bytes h r = AllResults-append xs fd bytes h r
AllResults-append (close f ∷ xs) fd bytes h r = AllResults-append xs fd bytes h r

-- Both threads' buffers have their sizes, the descriptors are covered, and results alone were sent.
pub record IsSound (m : ℕ) (s : System) : Type 0 where
  pub well : IsWell s.collector
  pub covered : IsCovered s.collector
  pub bounded : s.collector.max_fd ≤ m
  pub held : length s.processor.sensor_data ≡ sizeof_sensor_data
  pub room : length s.processor.packet ≡ send_data_size
  pub results : AllResults s.processor.effects

module _ (a : Arithmetic) (m : ℕ) where
  waited-IsSound :
      (s : System) (w : Waited) (after : Processor)
      → processing_round a s.processor w s.collector.sensor_data ≡ some after
      → IsSound m s
      → IsSound m (record s { processor = after })
  waited-IsSound s timed_out after done h =
      let found =
        processing_round-IsSum a s.processor s.collector.sensor_data h.held h.room
          h.well.sensor_size in
      rw (sym (some-injective s.processor after (sym found.0 ∙ done))) h
  waited-IsSound s woken after done h =
      let (idle, found, done', sum, effects, held, sock) =
        processing_round-IsSum a s.processor s.collector.sensor_data h.held h.room
          h.well.sensor_size in
      rw (sym (some-injective found after (sym done' ∙ done))) (record {
        well = h.well;
        covered = h.covered;
        bounded = h.bounded;
        held = held;
        room = sum.size;
        results = rw effects (
            AllResults-append s.processor.effects s.processor.client_sock found.packet h.results
              (record {
                size = sum.size;
                frame = sum.frame;
                command = sum.command;
                one_sum = sum.azimuth ∙ sym sum.elevation;
              }));
      })

  Step-IsSound : {s t : System} → Step a m s t → IsSound m s → IsSound m t
  Step-IsSound (serves s is_ready outside fd after sane acc done) h =
      let (found, done', kept) =
        serve_fd-IsKept m s.collector h.well h.covered h.bounded is_ready outside fd sane acc in
      rw (sym (some-injective found after (sym done' ∙ done))) (record {
        well = kept.well;
        covered = kept.covered;
        bounded = kept.bounded;
        held = h.held;
        room = h.room;
        results = h.results;
      })
  Step-IsSound (waits s w after done) h = waited-IsSound s w after done h

  pub Reach-IsSound : {s t : System} → Reach a m s t → IsSound m s → IsSound m t
  Reach-IsSound here h = h
  Reach-IsSound (next before step) h = Step-IsSound step (Reach-IsSound before h)

  pub processing_round-goes :
      (s : System) (w : Waited)
      → IsSound m s
      → (after : Processor) × (processing_round a s.processor w s.collector.sensor_data
          ≡ some after)
  processing_round-goes s timed_out h = (
    s.processor,
    (processing_round-IsSum a s.processor s.collector.sensor_data h.held h.room
        h.well.sensor_size).0,
  )
  processing_round-goes s woken h =
      let found =
        processing_round-IsSum a s.processor s.collector.sensor_data h.held h.room
          h.well.sensor_size in
      (found.1, found.2)

  -- From a sound state on, in every order of the steps of the two threads and for every content of
  -- the sensors' messages, the state stays sound: all that is sent to the control process are whole
  -- result frames with one sum in both members. And in each state that is reached the next whole
  -- iteration of either thread, for any return of its calls, ends and stays in its buffers.
  pub reached-IsSound :
      (s t : System) (selected : Selected) (outside : Outside) (w : Waited)
      → IsSound m s
      → IsSane outside
      → AcceptedLe m outside.accepted
      → Reach a m s t
      → IsSound m t
        × ((c : Collector) × (collector_round (m + 2) t.collector selected outside ≡ some (some c)))
        × ((p : Processor) × (processing_round a t.processor w t.collector.sensor_data ≡ some p))
  reached-IsSound s t selected outside w h sane acc reached =
      let sound = Reach-IsSound reached h in
      let (c, done, kept) =
        collector_round-IsKept m t.collector selected outside sane acc sound.well sound.covered
          sound.bounded in
      (sound, (c, done), processing_round-goes t w sound)
