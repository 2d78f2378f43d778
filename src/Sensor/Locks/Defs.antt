-- ===== src/Sensor/Locks/Defs.antt =====
-- The mutex and the condition of SHARED_SENSOR_DATA: lines 36 to 78 of sensor-collector.c and 34 to
-- 57 of sensor-processing.c, each access of the shared record a step of its own.
use communicate_core.Common.{
  ℕ, suc, ◌≤◌, ◌<◌, ◌≡◌, List, [], ◌∷◌, ◌++◌, map, true, false, Option, none, some, ◌>>=◌, ◌==◌,
  length, set, short_to_int,
}
use communicate_core.Memory.{byte_at, IsBytes, load, store, copy_bytes}
use communicate_core.Command.Ids.{sizeof_sensor_data}
use communicate_core.Frame.Layout.{extern4_id, src_id_at, cmd_at, sizeof_frame_header}
use communicate_core.Frame.Check.{check_packet_format}
use communicate_core.Handler.Dispatch.{expected_log}
use communicate_core.Handler.Stores.{Store, stores}
use communicate_core.Sensor.Data.{Effect}
use communicate_core.Sensor.Collector.{
  Collector, collector_msg_id, drop_connection, accept_connection,
}
use communicate_core.Sensor.Collector.Frames.{receive_size}
use communicate_core.Sensor.Collector.Rounds.{AcceptedLe}
use communicate_core.Sensor.Processing.{
  Arithmetic, Processor, Waited, timed_out, woken, send_result,
}

pub data Thread : Type 0 where
  collecting : Thread
  processing : Thread

-- Where the collector stands in the body of its loop, with the locals that are live there.
pub data CollectorAt : Type 0 where
  serving : CollectorAt  -- before a receive or an accept
  received : (cmd src : ℕ) → CollectorAt  -- before `pthread_mutex_lock`
  dispatching : (cmd src : ℕ) (todo : List Store) → CollectorAt  -- in `dispatchCommand`
  dispatched : (src : ℕ) → CollectorAt  -- behind it
  leaving : CollectorAt  -- before `pthread_mutex_unlock`

-- Where the processor stands.
pub data ProcessorAt : Type 0 where
  outside : ProcessorAt  -- before `pthread_mutex_lock`
  entering : ProcessorAt  -- before `pthread_cond_timedwait`
  waiting : ProcessorAt  -- in it, the mutex released
  returning : (ret : Waited) → ProcessorAt  -- in it, unblocked, before the mutex is taken again
  returned : (ret : Waited) → ProcessorAt  -- behind it
  copying : (done : ℕ) → ProcessorAt  -- in `memcpy`
  summing : ProcessorAt  -- behind `pthread_mutex_unlock`

-- The two threads, the owner of the mutex, and the shared SENSOR_DATA, which stands in `collector`.
pub record Machine : Type 0 where
  pub collector : Collector
  pub processor : Processor
  pub owner : Option Thread
  pub collector_at : CollectorAt
  pub processor_at : ProcessorAt

-- `pthread_cond_signal` unblocks a thread that waits, and does nothing else.
abbrev pub notify : ProcessorAt → ProcessorAt
notify waiting = returning woken
notify at = at

-- A message up to the lock: the buffer, and what is read of its header.
unfoldable pub receive_frame : Collector → List ℕ → Option (Collector × CollectorAt)
receive_frame c bytes = do
  buffer ← copy_bytes (length bytes) c.buffer bytes
  status ← check_packet_format buffer collector_msg_id (length bytes)
  src ← load 1 buffer src_id_at
  cmd ← load 2 buffer cmd_at
  some (record c { buffer = buffer }, received (short_to_int cmd) src)

-- The assignments of the command's handler, for the payload in the receive buffer.
abbrev pub stores_of : Collector → ℕ → List Store
stores_of c cmd = stores cmd (record { mem = c.buffer; at = sizeof_frame_header }) 0

pub data CollectorStep (m : ℕ) (s : Machine) : Machine → Type 0 where
  accepts :
      (accepted : Option ℕ)
      → AcceptedLe m accepted
      → s.collector_at ≡ serving
      → CollectorStep m s (record s { collector = accept_connection s.collector accepted })
  drops :
      (fd : ℕ)
      → (fd == s.collector.server_sock) ≡ false
      → s.collector_at ≡ serving
      → CollectorStep m s (record s { collector = drop_connection s.collector fd })
  receives :
      (fd : ℕ) (bytes : List ℕ) (c : Collector) (at : CollectorAt)
      → (fd == s.collector.server_sock) ≡ false
      → IsBytes bytes
      → length bytes ≤ receive_size
      → s.collector_at ≡ serving
      → receive_frame s.collector bytes ≡ some (c, at)
      → CollectorStep m s (record s { collector = c; collector_at = at })
  locks :
      (cmd src : ℕ)
      → s.collector_at ≡ received cmd src
      → s.owner ≡ none
      → CollectorStep m s (record s {
        owner = some collecting;
        collector_at = dispatching cmd src (stores_of s.collector cmd);
      })
  assigns :
      (cmd src : ℕ) (st : Store) (todo : List Store) (mem : List ℕ)
      → s.collector_at ≡ dispatching cmd src (st ∷ todo)
      → store st.width s.collector.sensor_data st.to st.value ≡ some mem
      → CollectorStep m s (record s {
        collector = record s.collector { sensor_data = mem };
        collector_at = dispatching cmd src todo;
      })
  ends :
      (cmd src : ℕ)
      → s.collector_at ≡ dispatching cmd src []
      → CollectorStep m s (record s {
        collector = record s.collector {
          effects = s.collector.effects ++ map Effect.log (expected_log cmd true);
        };
        collector_at = dispatched src;
      })
  signals :
      (src : ℕ)
      → s.collector_at ≡ dispatched src
      → (src == extern4_id) ≡ true
      → CollectorStep m s (record s {
        collector = record s.collector { effects = s.collector.effects ++ (Effect.signal ∷ []) };
        collector_at = leaving;
        processor_at = notify s.processor_at;
      })
  signals_not :
      (src : ℕ)
      → s.collector_at ≡ dispatched src
      → (src == extern4_id) ≡ false
      → CollectorStep m s (record s { collector_at = leaving })
  unlocks :
      s.collector_at ≡ leaving
      → CollectorStep m s (record s { owner = none; collector_at = serving })

pub data ProcessorStep (a : Arithmetic) (s : Machine) : Machine → Type 0 where
  enters :
      s.processor_at ≡ outside
      → s.owner ≡ none
      → ProcessorStep a s (record s { owner = some processing; processor_at = entering })
  waits :
      s.processor_at ≡ entering
      → ProcessorStep a s (record s { owner = none; processor_at = waiting })
  times_out :
      s.processor_at ≡ waiting → ProcessorStep a s (record s { processor_at = returning timed_out })
  wakes :  -- with no signal, as a wait may
      s.processor_at ≡ waiting → ProcessorStep a s (record s { processor_at = returning woken })
  regains :
      (ret : Waited)
      → s.processor_at ≡ returning ret
      → s.owner ≡ none
      → ProcessorStep a s (record s { owner = some processing; processor_at = returned ret })
  gives_up :
      s.processor_at ≡ returned timed_out
      → ProcessorStep a s (record s { owner = none; processor_at = outside })
  begins :
      s.processor_at ≡ returned woken → ProcessorStep a s (record s { processor_at = copying 0 })
  copies :
      (done : ℕ)
      → s.processor_at ≡ copying done
      → done < sizeof_sensor_data
      → ProcessorStep a s (record s {
        processor = record s.processor {
          sensor_data = set s.processor.sensor_data done (byte_at s.collector.sensor_data done);
        };
        processor_at = copying (suc done);
      })
  releases :
      s.processor_at ≡ copying sizeof_sensor_data
      → ProcessorStep a s (record s { owner = none; processor_at = summing })
  sends :
      (p : Processor)
      → s.processor_at ≡ summing
      → send_result a s.processor ≡ some p
      → ProcessorStep a s (record s { processor = p; processor_at = outside })

pub data Step (a : Arithmetic) (m : ℕ) (s t : Machine) : Type 0 where
  collector_steps : CollectorStep m s t → Step a m s t
  processor_steps : ProcessorStep a s t → Step a m s t

pub data Reach (a : Arithmetic) (m : ℕ) (s : Machine) : Machine → Type 0 where
  here : Reach a m s s
  next : {t u : Machine} → Reach a m s t → Step a m t u → Reach a m s u

-- The messages that a step, or a run, receives.
abbrev pub collector_messages : {m : ℕ} {s t : Machine} → CollectorStep m s t → List (List ℕ)
collector_messages (receives fd bytes c at other are_bytes fits is done) = bytes ∷ []
collector_messages (accepts accepted le at) = []
collector_messages (drops fd other at) = []
collector_messages (locks cmd src at free) = []
collector_messages (assigns cmd src st todo mem at done) = []
collector_messages (ends cmd src at) = []
collector_messages (signals src at urgent) = []
collector_messages (signals_not src at other) = []
collector_messages (unlocks at) = []

abbrev pub step_messages : {a : Arithmetic} {m : ℕ} {s t : Machine} → Step a m s t → List (List ℕ)
step_messages (collector_steps step) = collector_messages step
step_messages (processor_steps step) = []

abbrev pub messages : {a : Arithmetic} {m : ℕ} {s t : Machine} → Reach a m s t → List (List ℕ)
messages here = []
messages (next before step) = messages before ++ step_messages step

-- Both threads before their loops, with the mutex free.
abbrev pub unlocked : Collector → Processor → Machine
unlocked c p = record {
  collector = c;
  processor = p;
  owner = none;
  collector_at = serving;
  processor_at = outside;
}
