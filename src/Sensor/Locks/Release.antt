-- ===== src/Sensor/Locks/Release.antt =====
-- The way out of the critical sections.
pub mod Tests
use communicate_core.Common.{
  ℕ, zero, suc, ◌+◌, ◌-◌, ◌≤◌, ◌<◌, ◌≡◌, ◌⊎◌, refl, sym, ap, ◌∙◌, List, [], ◌∷◌, Bool, Bool-cases,
  true, false, Option, none, some, arith, inl, inr, length, ◌==◌,
}
use communicate_core.Memory.{poke, store_in_range, length-poke}
use communicate_core.Command.Ids.{sizeof_sensor_data}
use communicate_core.Frame.Layout.{extern4_id}
use communicate_core.Handler.Stores.{Store, AllWithin}
use communicate_core.Sensor.Collector.{Collector}
use communicate_core.Sensor.Processing.{
  Arithmetic, Processor, Waited, timed_out, woken, send_result,
}
use communicate_core.Sensor.System.{System, IsSound}
use communicate_core.Sensor.Locks.Defs.{
  Thread, collecting, processing, CollectorAt, serving, received, dispatching, dispatched, leaving,
  ProcessorAt, outside, entering, waiting, returning, returned, copying, summing, Machine,
  CollectorStep, assigns, ends, signals, signals_not, unlocks, ProcessorStep, waits, gives_up,
  begins, copies, releases, sends, Reach, unlocked,
}
use communicate_core.Sensor.Locks.Relation.{
  collector_holds, processor_holds, is_owner, IsExclusive, CollectorMatches, ProcessorMatches,
  Matches,
}
use communicate_core.Sensor.Locks.Refinement.{run-Simulated}

-- A number of steps of one thread alone.
pub data Runs (S : Machine → Machine → Type 0) : ℕ → Machine → Machine → Type 0 where
  stopped : (t : Machine) → Runs S 0 t t
  then : (n : ℕ) (t s u : Machine) → S t s → Runs S n s u → Runs S (suc n) t u

-- With steps of one thread alone, no more than `n`, the mutex becomes free.
abbrev pub Frees : (Machine → Machine → Type 0) → ℕ → Machine → Type 0
Frees S n t = (k : ℕ) × (u : Machine) × Runs S k t u × (k ≤ n) × (u.owner ≡ none)

Frees-after :
    (S : Machine → Machine → Type 0) (n : ℕ) (t s : Machine)
    → S t s
    → Frees S n s
    → Frees S (suc n) t
Frees-after S n t s step rest =
    let (k, u, runs, few, free) = rest in (suc k, u, then k t s u step runs, omega arith, free)

Frees-mono :
    (S : Machine → Machine → Type 0) (n k : ℕ) (t : Machine) → n ≤ k → Frees S n t → Frees S k t
Frees-mono S n k t h rest = let (j, u, runs, few, free) = rest in (j, u, runs, omega arith, free)

module _ (m : ℕ) where
  leaving-Frees : (t : Machine) → t.collector_at ≡ leaving → Frees (CollectorStep m) 1 t
  leaving-Frees t e =
      Frees-after (CollectorStep m) 0 t _ (unlocks e) (0, _, stopped _, omega arith, refl)

  dispatched-Frees :
      (t : Machine) (src : ℕ) → t.collector_at ≡ dispatched src → Frees (CollectorStep m) 2 t
  dispatched-Frees t src e = elim (Bool-cases (src == extern4_id)) [
    | inl is ↦ Frees-after (CollectorStep m) 1 t _ (signals src e is) (leaving-Frees _ refl)
    | inr other ↦
        Frees-after (CollectorStep m) 1 t _ (signals_not src e other) (leaving-Frees _ refl)
  ]

  dispatching-Frees :
      (todo : List Store) (t : Machine) (cmd src : ℕ)
      → t.collector_at ≡ dispatching cmd src todo
      → AllWithin (length t.collector.sensor_data) todo
      → Frees (CollectorStep m) (length todo + 3) t
  dispatching-Frees [] t cmd src e within =
      Frees-after (CollectorStep m) 2 t _ (ends cmd src e) (dispatched-Frees _ src refl)
  dispatching-Frees (st ∷ todo) t cmd src e within =
      Frees-mono (CollectorStep m) (suc (length todo + 3)) (suc (length todo) + 3) t (omega arith) (
        Frees-after (CollectorStep m) (length todo + 3) t _
          (assigns cmd src st todo _ e
            (store_in_range st.width t.collector.sensor_data st.to st.value within.0))
          (dispatching-Frees todo _ cmd src refl
            (rw (length-poke st.width t.collector.sensor_data st.to st.value) within.1)))

module _ (a : Arithmetic) where
  copying-Frees :
      (left : ℕ) (t : Machine) (done : ℕ)
      → done + left ≡ sizeof_sensor_data
      → t.processor_at ≡ copying done
      → Frees (ProcessorStep a) (suc left) t
  copying-Frees zero t done whole e =
      Frees-after (ProcessorStep a) 0 t _ (releases (rw (sym (whole_is done whole)) e))
        (0, _, stopped _, omega arith, refl)
    where
      whole_is : (done : ℕ) → done + 0 ≡ sizeof_sensor_data → done ≡ sizeof_sensor_data
      whole_is done h = omega arith
  copying-Frees (suc left) t done whole e =
      Frees-after (ProcessorStep a) (suc left) t _ (copies done e (omega arith))
        (copying-Frees left _ (suc done) (omega arith) refl)

module _ (a : Arithmetic) (m : ℕ) (s : System) (w : List (List ℕ)) (t : Machine)
    (h : Matches a s w t) where
  collector-Frees :
      (at : CollectorAt)
      → t.collector_at ≡ at
      → CollectorMatches w s.collector t.collector at
      → true ≡ collector_holds at
      → Frees (CollectorStep m) 6 t
  collector-Frees serving e match holds = absurd (cc holds)
  collector-Frees (received cmd src) e match holds = absurd (cc holds)
  collector-Frees (dispatching cmd src todo) e match holds =
      Frees-mono (CollectorStep m) (length todo + 3) 6 t (omega (arith, match.1))
        (dispatching-Frees m todo t cmd src e match.0)
  collector-Frees (dispatched src) e match holds =
      Frees-mono (CollectorStep m) 2 6 t (omega arith) (dispatched-Frees m t src e)
  collector-Frees leaving e match holds =
      Frees-mono (CollectorStep m) 1 6 t (omega arith) (leaving-Frees m t e)

  processor-Frees :
      (at : ProcessorAt)
      → t.processor_at ≡ at
      → ProcessorMatches a s.processor s.collector.sensor_data t.processor at
      → true ≡ processor_holds at
      → Frees (ProcessorStep a) (sizeof_sensor_data + 2) t
  processor-Frees outside e match holds = absurd (cc holds)
  processor-Frees waiting e match holds = absurd (cc holds)
  processor-Frees (returning w) e match holds = absurd (cc holds)
  processor-Frees summing e match holds = absurd (cc holds)
  processor-Frees entering e match holds =
      Frees-after (ProcessorStep a) 89 t _ (waits e) (0, _, stopped _, omega arith, refl)
  processor-Frees (returned timed_out) e match holds =
      Frees-after (ProcessorStep a) 89 t _ (gives_up e) (0, _, stopped _, omega arith, refl)
  processor-Frees (returned woken) e match holds =
      Frees-after (ProcessorStep a) 89 t _ (begins e) (copying-Frees a 88 _ 0 refl refl)
  processor-Frees (copying done) e match holds =
      Frees-mono (ProcessorStep a) (suc (88 - done)) 90 t (omega arith)
        (copying-Frees a (88 - done) t done (omega (arith, match.0)) e)

-- The mutex is never kept: in each state that is reached from free threads in a sound state it is
-- free, or the collector owns it and comes to its unlock with at most six steps of its own, or the
-- processor owns it and comes to its unlock or its wait with at most ninety, with no help of the
-- other thread and no access outside of a buffer on the way.
pub owner_releases :
    (a : Arithmetic) (m : ℕ) (c : Collector) (p : Processor) (t : Machine)
    → IsSound m (record { collector = c; processor = p })
    → Reach a m (unlocked c p) t
    → ((t.owner ≡ none)
        ⊎ ((t.owner ≡ some collecting) × Frees (CollectorStep m) 6 t)
        ⊎ ((t.owner ≡ some processing) × Frees (ProcessorStep a) (sizeof_sensor_data + 2) t))
owner_releases a m c p t sound reached =
    let (s, steps, w, match, same) = run-Simulated a m sound reached in
    by_owner t.owner refl s w match
  where
    by_owner :
        (owner : Option Thread)
        → t.owner ≡ owner
        → (s : System) (w : List (List ℕ)) → Matches a s w t
        → ((t.owner ≡ none)
            ⊎ ((t.owner ≡ some collecting) × Frees (CollectorStep m) 6 t)
            ⊎ ((t.owner ≡ some processing) × Frees (ProcessorStep a) (sizeof_sensor_data + 2) t))
    by_owner none e s w match = inl e
    by_owner (some collecting) e s w match = inr (
        inl (
          e,
          collector-Frees a m s w t match t.collector_at refl match.collector
              (sym (match.exclusive.by_collector ∙ ap (is_owner collecting) e)),
        ))
    by_owner (some processing) e s w match = inr (
        inr (
          e,
          processor-Frees a m s w t match t.processor_at refl match.processor
              (sym (match.exclusive.by_processor ∙ ap (is_owner processing) e)),
        ))
