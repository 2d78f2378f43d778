-- ===== src/Sensor/Locks/Latest.antt =====
-- The threads with their lock against the service: readings arrive, sums are sent.
pub mod Tests
use mathlib.Core.Path.{subst}
use communicate_core.Common.{
  ℕ, ◌+◌, ◌≤◌, ◌≡◌, ◌⊎◌, inl, inr, refl, sym, ap, ◌∙◌, List, [], ◌∷◌, ◌++◌, true, Option, none,
  some, ◌>>=◌,
}
use mathlib.Core.Option.{some-injective}
use communicate_core.Memory.{store}
use communicate_core.Command.Ids.{processing_data_id, sizeof_double}
use communicate_core.Frame.Layout.{sizeof_frame_header}
use communicate_core.Frame.Build.{make_send_packet}
use communicate_core.Memory.{peek}
use communicate_core.Sensor.Data.{Effect}
use communicate_core.Sensor.Readings.{Sensor}
use communicate_core.Sensor.Collector.{Collector}
use communicate_core.Sensor.Processing.{
  Arithmetic, Processor, send_result, sum_readings, processing_msg_id,
}
use communicate_core.Sensor.Processing.Results.{total}
use communicate_core.Sensor.System.{System, IsSound, Reach-IsSound}
use communicate_core.Sensor.Latest.Defs.{view, Reading, AllReadings, replay}
use communicate_core.Sensor.Latest.Steps.{Agrees}
use communicate_core.Sensor.Latest.History.{
  History, sent_sums, sent_sums-append, Reach-Follows, bytes_of, split_bytes, no_bytes, one_reading,
}
use communicate_core.Sensor.System.Messages as Messages
use communicate_core.Sensor.Locks.Defs.{
  CollectorAt, serving, received, dispatching, dispatched, leaving, ProcessorAt, outside, entering,
  waiting, returning, returned, copying, summing, Machine, Reach, messages, unlocked,
}
use communicate_core.Sensor.Locks.Relation.{
  collector_holds, CollectorMatches, InFlight, ProcessorMatches, Matches,
}
use communicate_core.Sensor.Locks.Refinement.{run-Simulated, shared_or_held}

some_bind :
    {A B : Type 0} (o : Option A) (f : A → Option B) (y : B)
    → (o >>= f) ≡ some y
    → (x : A) × (o ≡ some x) × (f x ≡ some y)
some_bind none f y h = absurd (cc h)
some_bind (some x) f y h = (x, refl, h)

send_result-effects :
    (a : Arithmetic) (q p : Processor)
    → send_result a q ≡ some p
    → p.effects ≡ q.effects ++ (Effect.send q.client_sock p.packet ∷ [])
unfolding send_result
send_result-effects a q p h =
    let (sum, e1, h1) = some_bind (sum_readings a q.sensor_data) _ p h in
    let (one, e2, h2) = some_bind (store sizeof_double q.packet sizeof_frame_header sum) _ p h1 in
    let (two, e3, h3) = some_bind (store sizeof_double one (sizeof_frame_header + 8) sum) _ p h2 in
    let (packet, e4, h4) =
      some_bind (make_send_packet processing_data_id processing_msg_id two) _ p h3 in
    subst (λ (r : Processor). r.effects ≡ q.effects ++ (Effect.send q.client_sock r.packet ∷ []))
      (some-injective _ p h4) refl

-- What the processor has sent is what was made, but for the one sum that it is about to send.
abbrev pub Sent : ProcessorAt → List ℕ → List ℕ → Type 0
Sent summing sent made = (x : ℕ) × (made ≡ sent ++ (x ∷ []))
Sent at sent made = sent ≡ made

same_sums :
    (p q : Processor) (made : List ℕ)
    → q ≡ p
    → sent_sums p.effects ≡ made
    → sent_sums q.effects ≡ made
same_sums p q made same sent = ap (λ (r : Processor). sent_sums r.effects) same ∙ sent

matched-Sent :
    (a : Arithmetic) (p q : Processor) (shared made : List ℕ) (at : ProcessorAt)
    → ProcessorMatches a p shared q at
    → sent_sums p.effects ≡ made
    → Sent at (sent_sums q.effects) made
matched-Sent a p q shared made outside h sent = same_sums p q made h sent
matched-Sent a p q shared made entering h sent = same_sums p q made h sent
matched-Sent a p q shared made waiting h sent = same_sums p q made h sent
matched-Sent a p q shared made (returning w) h sent = same_sums p q made h sent
matched-Sent a p q shared made (returned w) h sent = same_sums p q made h sent
matched-Sent a p q shared made (copying done) h sent =
    ap (λ (r : Processor). sent_sums r.effects) h.1 ∙ sent
matched-Sent a p q shared made summing h sent = (
  peek 8 p.packet 11,
  sym sent ∙ ap sent_sums (send_result-effects a q p h) ∙ sent_sums-append q.effects _,
)

-- The readings that are received and not stored: at most one, and that before the lock.
abbrev pub Flying : CollectorAt → List Reading → Type 0
Flying (received cmd src) new = (r : Reading) × (new ≡ r ∷ [])
Flying at new = new ≡ []

matched-Flying :
    (c u : Collector) (w : List (List ℕ)) (new : List Reading) (at : CollectorAt)
    → CollectorMatches w c u at
    → InFlight w at
    → w ≡ bytes_of new
    → Flying at new
matched-Flying c u w new serving h fly said = no_bytes new (sym fly ∙ said)
matched-Flying c u w new (received cmd src) h fly said =
    let (fd, bytes, other, are_bytes, fits, same, of, from, one) = h in
    let (r, is, idle) = one_reading bytes new (sym one ∙ said) in (r, is)
matched-Flying c u w new (dispatching cmd src todo) h fly said = no_bytes new (sym fly ∙ said)
matched-Flying c u w new (dispatched src) h fly said = no_bytes new (sym fly ∙ said)
matched-Flying c u w new leaving h fly said = no_bytes new (sym fly ∙ said)

-- From free threads in a sound state on, with nothing sent before, with each access of the shared
-- data a step of its own and in every order of the steps, let the messages that were received be the
-- readings `rs`, in this order. Then the threads did what the service does: there is a history of
-- readings that arrive and of sums of the latest ones, whose readings are `rs` but for one that the
-- collector has received and waits with before its lock. What the processor has sent are the sums of
-- the history, in order, but for the last one while it stands before its send. And unless the
-- collector is in its critical section, the doubles of the shared data are the latest readings of the
-- history.
pub locked_refines_latest :
    (a : Arithmetic) (m : ℕ) (c : Collector) (p : Processor) (t : Machine) (rs : List Reading)
    → IsSound m (record { collector = c; processor = p })
    → p.effects ≡ []
    → (run : Reach a m (unlocked c p) t) → messages run ≡ bytes_of rs
    → AllReadings rs
    → (stored : List Reading) × (new : List Reading) × (made : List ℕ) × (rs ≡ stored ++ new)
      × Flying t.collector_at new
      × History a (view c.sensor_data) stored made
      × Sent t.processor_at (sent_sums t.processor.effects) made
      × ((collector_holds t.collector_at ≡ true)
          ⊎ Agrees (view t.collector.sensor_data) (replay stored (view c.sensor_data)))
locked_refines_latest a m c p t rs sound fresh run said all =
    let (s, steps, w, match, same) = run-Simulated a m sound run in
    let (stored, new, whole, front, back, first, rest) =
      split_bytes (Messages.messages steps) w rs (same ∙ said) all in
    let f = Reach-Follows a m sound steps stored front first in
    (
      stored,
      new,
      f.made,
      whole,
      matched-Flying s.collector t.collector w new t.collector_at match.collector match.in_flight
          back,
      f.history,
      matched-Sent a s.processor t.processor s.collector.sensor_data f.made t.processor_at
          match.processor (f.sent ∙ ap (λ es. sent_sums es ++ f.made) fresh),
      elim (shared_or_held a m s w t match) [
        | inl held ↦ inl held
        | inr same ↦ inr λ x k q. ap (λ l. view l x k) same ∙ f.agrees x k q
      ],
    )
