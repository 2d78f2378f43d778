-- ===== src/Sensor/Locks/Refinement.antt =====
-- The threads with their lock against the system in which a message or an iteration is one step.
pub mod Tests
use communicate_core.Common.{
  ℕ, ◌≡◌, refl, sym, ap, ◌∙◌, List, [], ◌++◌, Bool, Bool-cases, true, false, Option, none, some,
  ◌⊎◌, arith, inl, inr,
}
use communicate_core.Sensor.Collector.{Collector}
use communicate_core.Sensor.Processing.{Arithmetic, Processor, send_result}
use communicate_core.Sensor.System.{System, IsSound, Reach-IsSound}
use communicate_core.Sensor.System as Atomic
use communicate_core.Sensor.System.Messages.{run_after}
use communicate_core.Sensor.System.Messages as Messages
use mathlib.Core.List.{append_assoc, append-nil}
use communicate_core.Sensor.Locks.Defs.{
  Thread, collecting, processing, ProcessorAt, outside, summing, copying, Machine, Step,
  collector_steps, processor_steps, Reach, here, next, unlocked, messages, step_messages,
}
use communicate_core.Sensor.Locks.Relation.{
  collector_holds, processor_holds, is_owner, IsExclusive, Matches, ProcessorMatches,
  CollectorMatches-shared,
}
use communicate_core.Sensor.Locks.Processor.{Simulated, ProcessorStep-Simulated}
use communicate_core.Sensor.Locks.Collector.{CollectorStep-Simulated}
use mathlib.Core.Path.{subst}

module _ (a : Arithmetic) (m : ℕ) where
  Step-Simulated :
      {s : System} {w : List (List ℕ)} {t u : Machine}
      → IsSound m s
      → Matches a s w t
      → (step : Step a m t u) → Simulated a m s (w ++ step_messages step) u
  Step-Simulated {s} {w} {t} sound h (collector_steps step) =
      CollectorStep-Simulated a m s t sound w h step
  Step-Simulated {s} {w} {t} {u} sound h (processor_steps step) =
      subst (λ v. Simulated a m s v u) (sym (append-nil w))
        (ProcessorStep-Simulated a m s w t h sound step)

  Reach-Simulated :
      {s : System} {w : List (List ℕ)} {t u : Machine}
      → IsSound m s
      → Matches a s w t
      → (run : Reach a m t u) → Simulated a m s (w ++ messages run) u
  Reach-Simulated {s} {w} sound h here = (s, Atomic.here, w, h, sym (append-nil w))
  Reach-Simulated {s} {w} sound h (next before step) =
      let (s', first, v, match, same) = Reach-Simulated sound h before in
      let (s'', then, v', match', same') =
        Step-Simulated (Reach-IsSound a m first sound) match step in
      let (run, joined) = run_after first then in
      (
        s'',
        run,
        v',
        match',
        ap (λ l. l ++ v') joined
            ∙ append_assoc (Messages.messages first) (Messages.messages then) v'
            ∙ ap (λ l. Messages.messages first ++ l) same'
            ∙ sym (append_assoc (Messages.messages first) v (step_messages step))
            ∙ ap (λ l. l ++ step_messages step) same
            ∙ append_assoc w (messages before) (step_messages step),
      )

  unlocked-Matches :
      (c : Collector) (p : Processor)
      → Matches a (record { collector = c; processor = p }) [] (unlocked c p)
  unlocked-Matches c p = record {
    exclusive = record { by_collector = refl; by_processor = refl };
    collector = refl;
    in_flight = refl;
    processor = refl;
  }

  -- A run from free threads corresponds to one of the system with the same messages.
  pub run-Simulated :
      {c : Collector} {p : Processor} {t : Machine}
      → IsSound m (record { collector = c; processor = p })
      → (run : Reach a m (unlocked c p) t)
      → Simulated a m (record { collector = c; processor = p }) (messages run) t
  run-Simulated {c} {p} sound run = Reach-Simulated sound (unlocked-Matches c p) run

  pub shared_or_held :
      (s : System) (w : List (List ℕ)) (t : Machine)
      → Matches a s w t
      → (collector_holds t.collector_at ≡ true)
        ⊎ (t.collector.sensor_data ≡ s.collector.sensor_data)
  shared_or_held s w t h = elim (Bool-cases (collector_holds t.collector_at)) [
    | inl held ↦ inl held
    | inr free ↦
        inr (CollectorMatches-shared w s.collector t.collector t.collector_at h.collector free)
  ]

  -- From free threads in a sound state on, with each access of the shared data a step of its own and
  -- in every order of the steps, the owner of the mutex is the one thread that stands in its critical
  -- section, and there is a sound state that the system with a message or an iteration as one step
  -- reaches, so that: the collector is in its critical section or the shared data are those of that
  -- state; a processor in its copy has copied bytes of those shared data alone; behind the copy it
  -- sends what that state has sent; and everywhere else its locals and its sends are those of that
  -- state. So no sum is made of a message that is stored in part.
  pub locked_refines_system :
      (c : Collector) (p : Processor) (t : Machine)
      → IsSound m (record { collector = c; processor = p })
      → Reach a m (unlocked c p) t
      → IsExclusive t
        × (s : System) × Atomic.Reach a m (record { collector = c; processor = p }) s
        × IsSound m s
        × ((collector_holds t.collector_at ≡ true)
            ⊎ (t.collector.sensor_data ≡ s.collector.sensor_data))
        × ProcessorMatches a s.processor s.collector.sensor_data t.processor t.processor_at
  locked_refines_system c p t sound reached =
      let (s, steps, w, match, same) = run-Simulated sound reached in
      (
        match.exclusive,
        s,
        steps,
        Reach-IsSound a m steps sound,
        shared_or_held s w t match,
        match.processor,
      )
