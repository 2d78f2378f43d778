-- ===== src/Sensor/System/Messages.antt =====
-- What the collector receives in a run of the system.
use communicate_core.Common.{
  ℕ, Bool, ◌≡◌, sym, ap, ◌∙◌, List, [], ◌∷◌, ◌++◌, Option, none, some, ◌==◌, if◌then◌else◌, not,
}
use mathlib.Core.List.{append_assoc, append-nil}
use communicate_core.Sensor.Collector.{Collector, Outside}
use communicate_core.Sensor.Processing.{Arithmetic}
use communicate_core.Sensor.System.{System, Step, serves, waits, Reach, here, next}

abbrev pub messages_of : Option (List ℕ) → List (List ℕ)
messages_of none = []
messages_of (some bytes) = bytes ∷ []

-- The message of a descriptor that is served: none if it is not ready or the server's.
abbrev pub served_messages : Collector → (ℕ → Bool) → Outside → ℕ → List (List ℕ)
served_messages c is_ready outside fd =
    if not (is_ready fd)
    then []
    else if fd == c.server_sock
    then []
    else messages_of (outside.receives fd)

abbrev pub step_messages : {a : Arithmetic} {m : ℕ} {s t : System} → Step a m s t → List (List ℕ)
step_messages (serves s is_ready outside fd after sane acc done) =
    served_messages s.collector is_ready outside fd
step_messages (waits s w after done) = []

abbrev pub messages : {a : Arithmetic} {m : ℕ} {s t : System} → Reach a m s t → List (List ℕ)
messages here = []
messages (next before step) = messages before ++ step_messages step

module _ {a : Arithmetic} {m : ℕ} where
  -- One run after another.
  pub run_after :
      {s t u : System} (before : Reach a m s t) (after : Reach a m t u)
      → (both : Reach a m s u) × (messages both ≡ messages before ++ messages after)
  run_after before here = (before, sym (append-nil (messages before)))
  run_after before (next after step) =
      let (both, same) = run_after before after in
      (
        next both step,
        ap (λ l. l ++ step_messages step) same
            ∙ append_assoc (messages before) (messages after) (step_messages step),
      )
