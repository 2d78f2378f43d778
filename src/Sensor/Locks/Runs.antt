-- ===== src/Sensor/Locks/Runs.antt =====
-- Runs that one of the two threads makes alone.
use mathlib.Core.Path.{subst}
use mathlib.Core.List.{append_assoc}
use communicate_core.Common.{
  ℕ, zero, suc, ◌+◌, ◌≡◌, refl, sym, ap, ◌∙◌, List, [], ◌∷◌, ◌++◌, map, true, none, some, ◌==◌,
  arith, length,
}
use communicate_core.Memory.{copied, store_in_range, length-poke}
use communicate_core.Frame.Layout.{extern4_id}
use communicate_core.Handler.Dispatch.{expected_log}
use communicate_core.Handler.Stores.{Store, run_stores, AllWithin}
use communicate_core.Sensor.Data.{Effect}
use communicate_core.Sensor.Collector.{Collector}
use communicate_core.Command.Ids.{sizeof_sensor_data}
use communicate_core.Sensor.Processing.{
  Arithmetic, Processor, timed_out, woken, send_result, send_data_size,
}
use communicate_core.Sensor.Processing.Results.{IsSum, processing_round-IsSum}
use communicate_core.Sensor.Locks.Processor.{round-after_copy}
use communicate_core.Sensor.Locks.Defs.{
  serving, dispatching, ProcessorAt, outside, returning, summing, copying, Machine, notify, assigns,
  ends, signals, unlocks, enters, waits, times_out, regains, gives_up, begins, copies, releases,
  sends, CollectorStep, ProcessorStep,
}
use communicate_core.Sensor.Locks.Relation.{CollectorMatches, set-copied}

-- No message is at hand, and the mutex is free.
abbrev pub unowned : Collector → Processor → ProcessorAt → Machine
unowned c p at = record {
  collector = c;
  processor = p;
  owner = none;
  collector_at = serving;
  processor_at = at;
}

-- Steps of one thread alone.
pub data Alone (S : Machine → Machine → Type 0) (s : Machine) : Machine → Type 0 where
  here : Alone S s s
  next : {t u : Machine} → Alone S s t → S t u → Alone S s u

module _ {S : Machine → Machine → Type 0} where
  pub Alone-trans : {s t u : Machine} → Alone S s t → Alone S t u → Alone S s u
  Alone-trans before here = before
  Alone-trans before (next after step) = next (Alone-trans before after) step

  first : {s t u : Machine} → S s t → Alone S t u → Alone S s u
  first step after = Alone-trans (next here step) after

module _ (m : ℕ) where
  -- All assignments of a handler.
  assigned :
      (todo : List Store) (t : Machine) (cmd src : ℕ)
      → t.collector_at ≡ dispatching cmd src todo
      → AllWithin (length t.collector.sensor_data) todo
      → Alone (CollectorStep m) t (record t {
        collector = record t.collector { sensor_data = run_stores todo t.collector.sensor_data };
        collector_at = dispatching cmd src [];
      })
  assigned [] t cmd src e within =
      subst (λ at. Alone (CollectorStep m) t (record t { collector_at = at })) e here
  assigned (st ∷ todo) t cmd src e within =
      first
        (assigns cmd src st todo _ e
          (store_in_range st.width t.collector.sensor_data st.to st.value within.0))
        (assigned todo _ cmd src refl
          (rw (length-poke st.width t.collector.sensor_data st.to st.value) within.1))

  complete :
      (c u : Collector) (cmd src : ℕ) (todo : List Store)
      → (src == extern4_id) ≡ true
      → CollectorMatches [] c u (dispatching cmd src todo)
      → record u {
        sensor_data = run_stores todo u.sensor_data;
        effects = (u.effects ++ map Effect.log (expected_log cmd true)) ++ (Effect.signal ∷ []);
      }
        ≡ c
  complete c u cmd src todo urgent h =
      rw
        (
          h.2,
          urgent,
          append_assoc u.effects (map Effect.log (expected_log cmd true)) (Effect.signal ∷ []),
        )
        refl

  -- From the lock to the unlock, for a source that is signalled.
  pub finishes :
      (c : Collector) (t : Machine) (cmd src : ℕ) (todo : List Store)
      → t.collector_at ≡ dispatching cmd src todo
      → CollectorMatches [] c t.collector (dispatching cmd src todo)
      → (src == extern4_id) ≡ true
      → Alone (CollectorStep m) t (unowned c t.processor (notify t.processor_at))
  finishes c t cmd src todo e match urgent =
      subst (λ c. Alone (CollectorStep m) t (unowned c t.processor (notify t.processor_at)))
        (complete c t.collector cmd src todo urgent match)
        (next
          (next (next (assigned todo t cmd src e match.0) (ends cmd src refl))
            (signals src refl urgent))
          (unlocks refl))

module _ (a : Arithmetic) where
  -- A result, and a wait that times out.
  pub waits_in_vain :
      (c : Collector) (q p : Processor)
      → send_result a q ≡ some p
      → Alone (ProcessorStep a) (unowned c q summing) (unowned c p outside)
  waits_in_vain c q p done =
      next
        (next
          (next (next (next (next here (sends p refl done)) (enters refl refl)) (waits refl))
            (times_out refl))
          (regains timed_out refl refl))
        (gives_up refl)

  -- The rest of a copy.
  copies_on :
      (left done : ℕ) (t : Machine) (q : Processor)
      → done + left ≡ sizeof_sensor_data
      → length q.sensor_data ≡ sizeof_sensor_data
      → length t.collector.sensor_data ≡ sizeof_sensor_data
      → t.processor_at ≡ copying done
      → t.processor ≡ record q { sensor_data = copied done q.sensor_data t.collector.sensor_data }
      → Alone (ProcessorStep a) t (record t {
        processor = record q {
          sensor_data = copied sizeof_sensor_data q.sensor_data t.collector.sensor_data;
        };
        processor_at = copying sizeof_sensor_data;
      })
  copies_on zero done t q whole held shared e same =
      let is : done ≡ sizeof_sensor_data = omega (arith, whole) in
      subst
        (λ p.
          Alone (ProcessorStep a) t
            (record t { processor = p; processor_at = copying sizeof_sensor_data }))
        (same
          ∙ ap (λ k. record q { sensor_data = copied k q.sensor_data t.collector.sensor_data }) is)
        (subst (λ at. Alone (ProcessorStep a) t (record t { processor_at = at }))
          (e ∙ ap copying is) here)
  copies_on (suc left) done t q whole held shared e same =
      first (copies done e (omega (arith, whole))) (
        copies_on left (suc done) _ q (omega (arith, whole)) held shared refl (
          rw same (
            ap (λ l. record q { sensor_data = l })
              (set-copied done q.sensor_data t.collector.sensor_data (omega (arith, whole, held))
                (omega (arith, whole, shared))))))

  -- From the wait that is unblocked to the send.
  pub answers :
      (c : Collector) (q : Processor)
      → length q.sensor_data ≡ sizeof_sensor_data
      → length q.packet ≡ send_data_size
      → length c.sensor_data ≡ sizeof_sensor_data
      → (p : Processor) × Alone
          (ProcessorStep a)
          (unowned c q (returning woken))
          (unowned c p outside)
        × IsSum a c.sensor_data p.packet
        × (p.effects ≡ q.effects ++ (Effect.send q.client_sock p.packet ∷ []))
  answers c q held room whole =
      let (idle, p, done, sum, effects, size, sock) =
        processing_round-IsSum a q c.sensor_data held room whole in
      (
        p,
        next
            (next
              (Alone-trans (next (next here (regains woken refl refl)) (begins refl))
                (copies_on sizeof_sensor_data 0 _ q refl held whole refl refl))
              (releases refl))
            (sends p refl (sym (round-after_copy a q c.sensor_data held whole) ∙ done)),
        sum,
        effects,
      )
