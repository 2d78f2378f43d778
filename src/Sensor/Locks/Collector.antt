-- ===== src/Sensor/Locks/Collector.antt =====
-- Each step of the collector, with the lock, as steps of the system without it.
use mathlib.Core.Path.{subst}
use mathlib.Core.List.{append_assoc, append-nil}
use mathlib.Core.Option.{some-injective}
use communicate_core.Common.{
  ℕ, ◌≤◌, ◌≡◌, refl, sym, ap, ◌∙◌, List, [], ◌∷◌, ◌++◌, map, true, false, Option, none, some, ◌==◌,
  arith, length,
}
use communicate_core.Memory.{byte_at, IsBytes, store, store_in_range, poke, length-poke}
use communicate_core.Frame.Layout.{extern4_id}
use communicate_core.Handler.Dispatch.{expected_log}
use communicate_core.Handler.Stores.{Store}
use communicate_core.Sensor.Data.{Effect}
use communicate_core.Sensor.Collector.{Collector, accept_connection, drop_connection, receive_from}
use communicate_core.Sensor.Collector.Frames.{
  receive_size, collected, command_of, signal_for, collect_frame-collected,
  received as receive_buffer,
}
use communicate_core.Sensor.Collector.Rounds.{AcceptedLe}
use communicate_core.Sensor.Processing.{Arithmetic}
use communicate_core.Sensor.System.{System, IsSound}
use communicate_core.Sensor.System as Atomic
use communicate_core.Sensor.System.Messages.{messages}
use communicate_core.Sensor.System.Messages as Messages
use communicate_core.Sensor.Locks.Defs.{
  Thread, collecting, processing, CollectorAt, serving, received, dispatching, dispatched, leaving,
  Machine, notify, receive_frame, stores_of, CollectorStep, accepts, drops, receives, locks,
  assigns, ends, signals, signals_not, unlocks, collector_messages,
}
use communicate_core.Sensor.Locks.Relation.{
  collector_holds, processor_holds, is_owner, CollectorMatches, ProcessorMatches, Matches, InFlight,
  ProcessorMatches-elsewhere,
}
use communicate_core.Sensor.Locks.Processor.{Simulated}
use communicate_core.Sensor.Locks.Messages.{
  one_call, one_call-IsSane, serve_accept, serve_message, accept_connection-shared,
  drop_connection-shared, locked_matches, receive_frame_lem,
}
use communicate_core.Sensor.Locks.Signals.{
  signals_matches, signals_not_matches, alone, notify_holds, notify_matches, given,
}

module _ (a : Arithmetic) (m : ℕ) (s : System) (t : Machine) (sound : IsSound m s)
    (w : List (List ℕ)) (h : Matches a s w t) where
  stands : (at : CollectorAt) → t.collector_at ≡ at → CollectorMatches w s.collector t.collector at
  stands at e = subst (CollectorMatches w s.collector t.collector) e h.collector

  holds_as :
      (at : CollectorAt) → t.collector_at ≡ at → collector_holds at ≡ is_owner collecting t.owner
  holds_as at e =
      subst (λ at. collector_holds at ≡ is_owner collecting t.owner) e h.exclusive.by_collector

  flying : (at : CollectorAt) → t.collector_at ≡ at → InFlight w at
  flying at e = subst (InFlight w) e h.in_flight

  stays :
      (v : List (List ℕ)) (c : Collector) (at : CollectorAt)
      → collector_holds at ≡ is_owner collecting t.owner
      → CollectorMatches v s.collector c at
      → InFlight v at
      → Simulated a m s v (record t { collector = c; collector_at = at })
  stays v c at mine match fly = (
    s,
    Atomic.here,
    v,
    record {
      exclusive = record { by_collector = mine; by_processor = h.exclusive.by_processor };
      collector = match;
      in_flight = fly;
      processor = h.processor;
    },
    refl,
  )

  -- The system makes a step, to the collector `next`.
  moves :
      (v : List (List ℕ)) (next c : Collector) (owner : Option Thread) (at : CollectorAt)
      → (step : Atomic.Step a m s (record s { collector = next })) → Messages.step_messages step ≡ v
      → collector_holds at ≡ is_owner collecting owner
      → processor_holds t.processor_at ≡ is_owner processing owner
      → CollectorMatches [] next c at
      → InFlight [] at
      → ProcessorMatches a s.processor next.sensor_data t.processor t.processor_at
      → Simulated a m s v (record t { collector = c; owner = owner; collector_at = at })
  moves v next c owner at step said mine theirs match fly other = (
    record s { collector = next },
    Atomic.next Atomic.here step,
    [],
    record {
      exclusive = record { by_collector = mine; by_processor = theirs };
      collector = match;
      in_flight = fly;
      processor = other;
    },
    append-nil (Messages.step_messages step) ∙ said,
  )

  -- An accept or a close, which leave the shared data alone.
  serves :
      (f : Collector → Collector)
      → ((c : Collector) → (f c).sensor_data ≡ c.sensor_data)
      → t.collector_at ≡ serving
      → (step : Atomic.Step a m s (record s { collector = f s.collector }))
      → Messages.step_messages step ≡ []
      → Simulated a m s w (record t { collector = f t.collector })
  serves f same e step said =
      moves w (f s.collector) (f t.collector) t.owner t.collector_at step
        (said ∙ sym (flying serving e)) h.exclusive.by_collector h.exclusive.by_processor
        (subst (CollectorMatches [] (f s.collector) (f t.collector)) (sym e)
          (ap f (stands serving e)))
        (subst (InFlight []) (sym e) refl)
        (subst (λ shared. ProcessorMatches a s.processor shared t.processor t.processor_at)
          (sym (same s.collector)) h.processor)

  accepts_Simulated :
      (accepted : Option ℕ)
      → AcceptedLe m accepted
      → t.collector_at ≡ serving
      → Simulated a m s w (record t { collector = accept_connection t.collector accepted })
  accepts_Simulated accepted le e =
      serves (λ c. accept_connection c accepted) (λ c. accept_connection-shared c accepted) e
        (Atomic.serves s (λ fd. true) (one_call accepted none) s.collector.server_sock _
          (one_call-IsSane accepted none (λ bytes e. absurd (cc e))) le
          (serve_accept s.collector accepted))
        (ground arith)

  drops_Simulated :
      (fd : ℕ)
      → (fd == t.collector.server_sock) ≡ false
      → t.collector_at ≡ serving
      → Simulated a m s w (record t { collector = drop_connection t.collector fd })
  unfolding receive_from
  drops_Simulated fd other e =
      serves (λ c. drop_connection c fd) (λ c. drop_connection-shared c fd) e
        (Atomic.serves s (λ fd. true) (one_call none none) fd _
          (one_call-IsSane none none (λ bytes e. absurd (cc e))) tt
          (serve_message s.collector fd none (rw (sym (stands serving e)) other)))
        (rw (rw (stands serving e) at other) refl)

  receives_Simulated :
      (fd : ℕ) (bytes : List ℕ) (c : Collector) (at : CollectorAt)
      → (fd == t.collector.server_sock) ≡ false
      → IsBytes bytes
      → length bytes ≤ receive_size
      → t.collector_at ≡ serving
      → receive_frame t.collector bytes ≡ some (c, at)
      → Simulated a m s (w ++ (bytes ∷ [])) (record t { collector = c; collector_at = at })
  receives_Simulated fd bytes c at other are_bytes fits e done =
      let b = stands serving e in
      let same : Path (Collector × CollectorAt)
          (
            record s.collector { buffer = receive_buffer s.collector bytes },
            received (command_of s.collector bytes) (byte_at (receive_buffer s.collector bytes) 6),
          )
          (c, at) =
        some-injective _ _ (
          sym (
            ap (λ c. receive_frame c bytes) b
            ∙ receive_frame_lem s.collector bytes sound.well are_bytes fits)
          ∙ done) in
      subst
        (λ (r : Collector × CollectorAt).
          Simulated a m s (w ++ (bytes ∷ [])) (record t { collector = r.0; collector_at = r.1 }))
        same
        (stays (w ++ (bytes ∷ [])) _ _ (holds_as serving e)
          (
            fd,
            bytes,
            rw (sym b) other,
            are_bytes,
            fits,
            refl,
            refl,
            refl,
            ap (λ l. l ++ (bytes ∷ [])) (flying serving e),
          )
          tt)

  locks_Simulated :
      (cmd src : ℕ)
      → t.collector_at ≡ received cmd src
      → t.owner ≡ none
      → Simulated a m s w (record t {
        owner = some collecting;
        collector_at = dispatching cmd src (stores_of t.collector cmd);
      })
  unfolding receive_from
  locks_Simulated cmd src e free =
      let (fd, bytes, other, are_bytes, fits, same, of, from, flies) =
        stands (received cmd src) e in
      let out = h.exclusive.by_processor ∙ ap (is_owner processing) free in
      moves w (collected s.collector bytes) t.collector (some collecting)
        (dispatching cmd src (stores_of t.collector cmd))
        (Atomic.serves s (λ fd. true) (one_call none (some bytes)) fd _
          (one_call-IsSane none (some bytes) (λ other e. given bytes other (are_bytes, fits) e)) tt
          (serve_message s.collector fd (some bytes) other
            ∙ collect_frame-collected s.collector bytes sound.well are_bytes fits))
        (rw other (sym flies)) refl out
        (locked_matches [] s.collector t.collector bytes cmd src sound.well same of from) refl
        (ProcessorMatches-elsewhere a s.processor t.processor _ _ t.processor_at out h.processor)

  assigns_Simulated :
      (cmd src : ℕ) (st : Store) (todo : List Store) (mem : List ℕ)
      → t.collector_at ≡ dispatching cmd src (st ∷ todo)
      → store st.width t.collector.sensor_data st.to st.value ≡ some mem
      → Simulated a m s w (record t {
        collector = record t.collector { sensor_data = mem };
        collector_at = dispatching cmd src todo;
      })
  assigns_Simulated cmd src st todo mem e done =
      let (within, few, ahead) = stands (dispatching cmd src (st ∷ todo)) e in
      let same =
        some-injective (poke st.width t.collector.sensor_data st.to st.value) mem
          (sym (store_in_range st.width t.collector.sensor_data st.to st.value within.0) ∙ done) in
      stays w _ _ (holds_as (dispatching cmd src (st ∷ todo)) e)
        (
          rw (sym same, length-poke st.width t.collector.sensor_data st.to st.value) within.1,
          omega arith,
          rw (sym same) ahead,
        )
        (flying (dispatching cmd src (st ∷ todo)) e)

  signals_Simulated :
      (src : ℕ)
      → t.collector_at ≡ dispatched src
      → (src == extern4_id) ≡ true
      → Simulated a m s w (record t {
        collector = record t.collector { effects = t.collector.effects ++ (Effect.signal ∷ []) };
        collector_at = leaving;
        processor_at = notify t.processor_at;
      })
  signals_Simulated src e is = (
    s,
    Atomic.here,
    w,
    record {
      exclusive = record {
        by_collector = holds_as (dispatched src) e;
        by_processor = notify_holds t.processor_at ∙ h.exclusive.by_processor;
      };
      collector = signals_matches w s.collector t.collector src is (stands (dispatched src) e);
      in_flight = flying (dispatched src) e;
      processor = notify_matches a s.processor _ t.processor t.processor_at h.processor;
    },
    refl,
  )

  unlocks_Simulated :
      t.collector_at ≡ leaving
      → Simulated a m s w (record t { owner = none; collector_at = serving })
  unlocks_Simulated e = (
    s,
    Atomic.here,
    w,
    record {
      exclusive = record {
        by_collector = refl;
        by_processor = alone t.owner (holds_as leaving e) h.exclusive.by_processor;
      };
      collector = stands leaving e;
      in_flight = flying leaving e;
      processor = h.processor;
    },
    refl,
  )

  no_message : {u : Machine} → Simulated a m s w u → Simulated a m s (w ++ []) u
  no_message {u} found = subst (λ v. Simulated a m s v u) (sym (append-nil w)) found

  pub CollectorStep-Simulated :
      {u : Machine} (step : CollectorStep m t u) → Simulated a m s (w ++ collector_messages step) u
  CollectorStep-Simulated (accepts accepted le e) = no_message (accepts_Simulated accepted le e)
  CollectorStep-Simulated (drops fd other e) = no_message (drops_Simulated fd other e)
  CollectorStep-Simulated (receives fd bytes c at other are_bytes fits e done) =
      receives_Simulated fd bytes c at other are_bytes fits e done
  CollectorStep-Simulated (locks cmd src e free) = no_message (locks_Simulated cmd src e free)
  CollectorStep-Simulated (assigns cmd src st todo mem e done) =
      no_message (assigns_Simulated cmd src st todo mem e done)
  CollectorStep-Simulated (ends cmd src e) =
      let (within, few, ahead) = stands (dispatching cmd src []) e in
      no_message (
        stays w _ _ (holds_as _ e)
          (rw
            (append_assoc t.collector.effects (map Effect.log (expected_log cmd true))
              (signal_for src))
            ahead)
          (flying _ e))
  CollectorStep-Simulated (signals src e is) = no_message (signals_Simulated src e is)
  CollectorStep-Simulated (signals_not src e other) = no_message (
      stays w _ _ (holds_as _ e)
        (signals_not_matches w s.collector t.collector src other (stands (dispatched src) e))
        (flying _ e))
  CollectorStep-Simulated (unlocks e) = no_message (unlocks_Simulated e)
