-- ===== src/Sensor/Locks/Processor.antt =====
-- Each step of the processor, with the lock, as steps of the system without it.
use mathlib.Core.Path.{subst}
use mathlib.Core.Option.{some-injective}
use communicate_core.Common.{
  ℕ, suc, length, ◌++◌, List, ◌<◌, ◌≡◌, refl, sym, ap, ◌∙◌, Bool, true, false, Option, none, some,
  arith, set,
}
use communicate_core.Memory.{byte_at, copied, copy_in_range}
use communicate_core.Command.Ids.{sizeof_sensor_data}
use communicate_core.Sensor.Processing.{
  Arithmetic, Processor, timed_out, woken, send_result, processing_round,
}
use communicate_core.Sensor.System.{System, IsSound, processing_round-goes}
use communicate_core.Sensor.System as Atomic
use communicate_core.Sensor.System.Messages.{messages}
use communicate_core.Sensor.Locks.Defs.{
  Thread, collecting, processing, ProcessorAt, outside, entering, waiting, returning, returned,
  copying, summing, Machine, ProcessorStep, enters, waits, times_out, wakes, regains, gives_up,
  begins, copies, releases, sends,
}
use communicate_core.Sensor.Locks.Relation.{
  collector_holds, processor_holds, is_owner, ProcessorMatches, Matches, set-copied,
  CollectorMatches-shared,
}

-- The system comes to a state that corresponds.
-- From `s`, with the messages `v` but for those in flight.
abbrev pub Simulated : Arithmetic → ℕ → System → List (List ℕ) → Machine → Type 0
Simulated a m s v u =
    (s' : System) × (run : Atomic.Reach a m s s') × (w : List (List ℕ)) × Matches a s' w u
    × (messages run ++ w ≡ v)

pub holder_alone :
    (owner : Option Thread) (b : Bool)
    → true ≡ is_owner processing owner
    → b ≡ is_owner collecting owner
    → b ≡ false
holder_alone owner b mine theirs = ground arith

-- An iteration that is woken is its copy, and what follows it.
pub round-after_copy :
    (a : Arithmetic) (p : Processor) (shared : List ℕ)
    → length p.sensor_data ≡ sizeof_sensor_data
    → length shared ≡ sizeof_sensor_data
    → processing_round a p woken shared
      ≡ send_result a (record p { sensor_data = copied sizeof_sensor_data p.sensor_data shared })
unfolding processing_round
round-after_copy a p shared held whole =
    rw (copy_in_range sizeof_sensor_data p.sensor_data shared (omega arith) (omega arith)) refl

module _ (a : Arithmetic) (m : ℕ) (s : System) (w : List (List ℕ)) (t : Machine)
    (h : Matches a s w t) where
  -- What the match of the processor says where it stands.
  stands :
      (at : ProcessorAt)
      → t.processor_at ≡ at
      → ProcessorMatches a s.processor s.collector.sensor_data t.processor at
  stands at e =
      subst (ProcessorMatches a s.processor s.collector.sensor_data t.processor) e h.processor

  holds_as :
      (at : ProcessorAt) → t.processor_at ≡ at → processor_holds at ≡ is_owner processing t.owner
  holds_as at e =
      subst (λ at. processor_holds at ≡ is_owner processing t.owner) e h.exclusive.by_processor

  collector_out :
      (at : ProcessorAt)
      → t.processor_at ≡ at
      → processor_holds at ≡ true
      → collector_holds t.collector_at ≡ false
  collector_out at e inside =
      holder_alone t.owner (collector_holds t.collector_at) (sym inside ∙ holds_as at e)
        h.exclusive.by_collector

  -- The system stays where it is.
  stays :
      (p : Processor) (owner : Option Thread) (at : ProcessorAt)
      → collector_holds t.collector_at ≡ is_owner collecting owner
      → processor_holds at ≡ is_owner processing owner
      → ProcessorMatches a s.processor s.collector.sensor_data p at
      → Simulated a m s w (record t { processor = p; owner = owner; processor_at = at })
  stays p owner at theirs mine match = (
    s,
    Atomic.here,
    w,
    record {
      exclusive = record { by_collector = theirs; by_processor = mine };
      collector = h.collector;
      in_flight = h.in_flight;
      processor = match;
    },
    refl,
  )

  free_collector : t.owner ≡ none → collector_holds t.collector_at ≡ false
  free_collector free = h.exclusive.by_collector ∙ ap (is_owner collecting) free

  copied_more :
      (done : ℕ)
      → IsSound m s
      → t.processor_at ≡ copying done
      → done < sizeof_sensor_data
      → ProcessorMatches a s.processor s.collector.sensor_data
          (record t.processor {
            sensor_data = set t.processor.sensor_data done (byte_at t.collector.sensor_data done);
          })
          (copying (suc done))
  copied_more done sound e more = (
    omega arith,
    rw
        (
          (stands (copying done) e).1,
          CollectorMatches-shared w s.collector t.collector t.collector_at h.collector
              (collector_out (copying done) e refl),
        )
        (ap (λ l. record s.processor { sensor_data = l })
          (set-copied done s.processor.sensor_data s.collector.sensor_data
            (omega (arith, sound.held)) (omega (arith, sound.well.sensor_size)))),
  )

  -- The copy is complete: the system makes the whole iteration.
  summed :
      IsSound m s
      → t.processor_at ≡ copying sizeof_sensor_data
      → Simulated a m s w (record t { owner = none; processor_at = summing })
  summed sound e =
      let (after, done) = processing_round-goes a m s woken sound in
      (
        record s { processor = after },
        Atomic.next Atomic.here (Atomic.waits s woken after done),
        w,
        record {
          exclusive = record { by_collector = collector_out _ e refl; by_processor = refl };
          collector = h.collector;
          in_flight = h.in_flight;
          processor =
              ap (send_result a) (stands _ e).1
              ∙ sym (
                  round-after_copy a s.processor s.collector.sensor_data sound.held
                    sound.well.sensor_size)
              ∙ done;
        },
        refl,
      )

  pub ProcessorStep-Simulated :
      {u : Machine} → IsSound m s → ProcessorStep a t u → Simulated a m s w u
  ProcessorStep-Simulated sound (enters e free) =
      stays t.processor (some processing) entering (free_collector free) refl (stands outside e)
  ProcessorStep-Simulated sound (waits e) =
      stays t.processor none waiting (collector_out entering e refl) refl (stands entering e)
  ProcessorStep-Simulated sound (times_out e) =
      stays t.processor t.owner (returning timed_out) h.exclusive.by_collector (holds_as waiting e)
        (stands waiting e)
  ProcessorStep-Simulated sound (wakes e) =
      stays t.processor t.owner (returning woken) h.exclusive.by_collector (holds_as waiting e)
        (stands waiting e)
  ProcessorStep-Simulated sound (regains ret e free) =
      stays t.processor (some processing) (returned ret) (free_collector free) refl
        (stands (returning ret) e)
  ProcessorStep-Simulated sound (gives_up e) =
      stays t.processor none outside (collector_out _ e refl) refl (stands (returned timed_out) e)
  ProcessorStep-Simulated sound (begins e) =
      stays t.processor t.owner (copying 0) h.exclusive.by_collector (holds_as _ e)
        (omega arith, stands (returned woken) e)
  ProcessorStep-Simulated sound (copies done e more) =
      stays _ t.owner (copying (suc done)) h.exclusive.by_collector (holds_as _ e)
        (copied_more done sound e more)
  ProcessorStep-Simulated sound (releases e) = summed sound e
  ProcessorStep-Simulated sound (sends p e done) =
      stays p t.owner outside h.exclusive.by_collector (holds_as _ e)
        (some-injective p s.processor (sym done ∙ stands summing e))
