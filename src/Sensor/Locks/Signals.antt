-- ===== src/Sensor/Locks/Signals.antt =====
-- What the collector and a signal leave of the correspondence.
use mathlib.Core.Path.{subst}
use mathlib.Core.List.{append-nil}
use mathlib.Core.Option.{some-injective}
use communicate_core.Common.{
  ℕ, ◌≤◌, ◌≡◌, refl, List, [], ◌∷◌, ◌++◌, Bool, true, false, Option, some, ◌==◌, arith, length,
}
use communicate_core.Memory.{IsBytes}
use communicate_core.Frame.Layout.{extern4_id}
use communicate_core.Sensor.Data.{Effect}
use communicate_core.Sensor.Collector.{Collector}
use communicate_core.Sensor.Collector.Frames.{receive_size}
use communicate_core.Sensor.Processing.{Arithmetic, Processor}
use communicate_core.Sensor.Locks.Defs.{
  Thread, collecting, processing, dispatched, ProcessorAt, notify,
}
use communicate_core.Sensor.Locks.Relation.{
  processor_holds, is_owner, CollectorMatches, ProcessorMatches,
}

pub signals_matches :
    (w : List (List ℕ)) (c u : Collector) (src : ℕ)
    → (src == extern4_id) ≡ true
    → CollectorMatches w c u (dispatched src)
    → record u { effects = u.effects ++ (Effect.signal ∷ []) } ≡ c
signals_matches w c u src is h = rw (h, is) refl

pub signals_not_matches :
    (w : List (List ℕ)) (c u : Collector) (src : ℕ)
    → (src == extern4_id) ≡ false
    → CollectorMatches w c u (dispatched src)
    → u ≡ c
signals_not_matches w c u src other h = rw (h, other, append-nil u.effects) refl

pub alone :
    (owner : Option Thread) {b : Bool}
    → true ≡ is_owner collecting owner
    → b ≡ is_owner processing owner
    → b ≡ false
alone owner mine theirs = ground arith

pub notify_holds : (at : ProcessorAt) → processor_holds (notify at) ≡ processor_holds at
notify_holds at = ground arith

pub notify_matches :
    (a : Arithmetic) (p : Processor) (shared : List ℕ) (q : Processor) (at : ProcessorAt)
    → ProcessorMatches a p shared q at
    → ProcessorMatches a p shared q (notify at)
notify_matches a p shared q at h = ground (arith, h)

pub given :
    (bytes other : List ℕ)
    → IsBytes bytes × (length bytes ≤ receive_size)
    → some bytes ≡ some other
    → IsBytes other × (length other ≤ receive_size)
given bytes other h e =
    subst (λ l. IsBytes l × (length l ≤ receive_size)) (some-injective bytes other e) h
