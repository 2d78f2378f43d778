-- ===== src/Sensor/Processing/Thread.antt =====
-- The whole of `sensorProcessingThread`.
pub mod Tests
use mathlib.Core.Path.{subst}
use mathlib.Core.List.{append-nil, append_assoc}
use communicate_core.Common.{
  ℕ, ◌≡◌, refl, sym, ap, ◌∙◌, List, [], ◌∷◌, ◌++◌, Bool, true, false, Option, none, some, ◌>>=◌,
  arith, length,
}
use communicate_core.Command.Ids.{sizeof_sensor_data}
use communicate_core.Sensor.Data.{Effect}
use communicate_core.Sensor.Processing.Defs.{
  Arithmetic, Processor, Waited, timed_out, woken, processing_round, send_data_size,
}
use communicate_core.Sensor.Processing.Results.{IsSum, processing_round-IsSum}

-- The return of a wait, and the shared data behind it.
pub record Wait : Type 0 where
  pub ret : Waited
  pub shared : List ℕ

-- The thread has ended, or is in its loop, which has no end.
pub data State : Type 0 where
  ended : State
  running : Processor → State

module _ (a : Arithmetic) where
  -- `while (1)`, over a number of waits.
  unfoldable pub processing_loop : Processor → List Wait → Option Processor
  processing_loop p [] = some p
  processing_loop p (w ∷ ws) = do
    next ← processing_round a p w.ret w.shared
    processing_loop next ws

  -- The thread, for its argument, what `malloc` gives, the content of its stack, and the socket of
  -- its client.
  unfoldable pub sensor_processing_thread :
      (is_null : Bool) → Option (List ℕ) → List ℕ → ℕ → List Wait → Option State
  sensor_processing_thread true allocated stack client_sock waits = some ended
  sensor_processing_thread false none stack client_sock waits = some ended
  sensor_processing_thread false (some packet) stack client_sock waits = do
    last ←
        processing_loop
          (record { sensor_data = stack; packet = packet; client_sock = client_sock; effects = [] })
          waits
    some (running last)

abbrev pub IsAllocated : Option (List ℕ) → Type 0
IsAllocated none = Unit {0}
IsAllocated (some packet) = length packet ≡ send_data_size

abbrev pub AllWhole : List Wait → Type 0
AllWhole [] = Unit {0}
AllWhole (w ∷ ws) = (length w.shared ≡ sizeof_sensor_data) × AllWhole ws

-- For each wait that is woken, in order, one packet on the socket, with the sum of the data then; and
-- nothing else.
abbrev pub AreSums : Arithmetic → ℕ → List Wait → List Effect → Type 0
AreSums a sock [] [] = Unit {0}
AreSums a sock [] (e ∷ es) = ⊥
AreSums a sock (w ∷ ws) es = elim w.ret [
  | timed_out ↦ AreSums a sock ws es
  | woken ↦
      (packet : List ℕ) × (rest : List Effect) × (es ≡ Effect.send sock packet ∷ rest)
      × IsSum a w.shared packet
      × AreSums a sock ws rest
]

abbrev pub Outcome : Arithmetic → Bool → Option (List ℕ) → ℕ → List Wait → State → Type 0
Outcome a true allocated sock waits last = last ≡ ended
Outcome a false none sock waits last = last ≡ ended
Outcome a false (some packet) sock waits last =
    (p : Processor) × (last ≡ running p) × AreSums a sock waits p.effects

module _ (a : Arithmetic) where
  -- What the loop leaves, from a processor `p`.
  record Loops (p : Processor) (ws : List Wait) : Type 0 where
    last : Processor
    done : processing_loop a p ws ≡ some last
    sent : List Effect
    effects : last.effects ≡ p.effects ++ sent
    sums : AreSums a p.client_sock ws sent

  processing_loop-Loops :
      (ws : List Wait) (p : Processor)
      → length p.sensor_data ≡ sizeof_sensor_data
      → length p.packet ≡ send_data_size
      → AllWhole ws
      → Loops p ws
  unfolding processing_loop
  processing_loop-Loops [] p held room whole = record {
    last = p;
    done = refl;
    sent = [];
    effects = sym (append-nil p.effects);
    sums = tt;
  }
  processing_loop-Loops (w ∷ ws) p held room whole =
      by_ret w.ret (λ q h r. processing_loop-Loops ws q h r whole.1)
    where
      by_ret :
          (ret : Waited)
          → ((q : Processor)
              → length q.sensor_data ≡ sizeof_sensor_data
              → length q.packet ≡ send_data_size
              → Loops q ws)
          → Loops p (record { ret = ret; shared = w.shared } ∷ ws)
      by_ret timed_out go =
          let rest = go p held room in
          record {
            last = rest.last;
            done = rw (processing_round-IsSum a p w.shared held room whole.0).0 rest.done;
            sent = rest.sent;
            effects = rest.effects;
            sums = rest.sums;
          }
      by_ret woken go =
          let (idle, next, done, sum, effects, kept, sock) =
            processing_round-IsSum a p w.shared held room whole.0 in
          let rest = go next kept sum.size in
          record {
            last = rest.last;
            done = rw done rest.done;
            sent = Effect.send p.client_sock next.packet ∷ rest.sent;
            effects =
                rest.effects
                ∙ ap (λ es. es ++ rest.sent) effects
                ∙ append_assoc p.effects (Effect.send p.client_sock next.packet ∷ []) rest.sent;
            sums = (
              next.packet,
              rest.sent,
              refl,
              sum,
              subst (λ fd. AreSums a fd ws rest.sent) sock rest.sums,
            );
          }

  -- The thread ends at once, with nothing sent, exactly without its argument or without memory.
  -- Otherwise it comes through any number of waits, with any content of its stack and whatever the
  -- shared data are behind each, and sends one packet for each wait that is woken, in their order,
  -- with the sum of the readings at that time, and nothing else.
  pub sensor_processing_thread-Outcome :
      (is_null : Bool) (allocated : Option (List ℕ)) (stack : List ℕ) (sock : ℕ) (waits : List Wait)
      → IsAllocated allocated
      → length stack ≡ sizeof_sensor_data
      → AllWhole waits
      → (last : State) × (sensor_processing_thread a is_null allocated stack sock waits ≡ some last)
        × Outcome a is_null allocated sock waits last
  unfolding sensor_processing_thread
  sensor_processing_thread-Outcome true allocated stack sock waits room held whole =
      (ended, refl, refl)
  sensor_processing_thread-Outcome false none stack sock waits room held whole = (ended, refl, refl)
  sensor_processing_thread-Outcome false (some packet) stack sock waits room held whole =
      let first : Processor = record {
        sensor_data = stack;
        packet = packet;
        client_sock = sock;
        effects = [];
      } in
      let l = processing_loop-Loops waits first held room whole in
      (running l.last, rw l.done refl, (l.last, refl, rw l.effects l.sums))
