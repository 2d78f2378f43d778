-- ===== src/Sensor/Processing/Results.antt =====
-- The result frame of the processing thread.
pub mod Tests
use communicate_core.Common.{
  ℕ, ◌+◌, ◌≤◌, ◌<◌, ◌^◌, ◌≡◌, refl, ap, ◌∙◌, List, [], ◌∷◌, ◌++◌, some, arith, length, sym,
  take-drop,
}
use communicate_core.Memory.{
  byte_at, peek, load_in_range, store_in_range, poke, peek-poke_self, peek-poke_apart, length-poke,
  peek_cong, copied, copy_in_range, length-copied, copied_inside,
}
use communicate_core.Command.{get_send_cmd_size}
use communicate_core.Command.Ids.{sizeof_sensor_data, processing_data_id}
use communicate_core.Frame.Layout.{no_id}
use communicate_core.Frame.Spec.{IsFrame, HasHeader}
use communicate_core.Frame.Build.{make_send_packet}
use communicate_core.Frame.Build.Outcome.{answer_size}
use communicate_core.Frame.RoundTrip.{make_send_packet-IsFrame}
use communicate_core.Sensor.Data.{Effect}
use communicate_core.Sensor.Processing.Defs.{
  Arithmetic, Processor, processing_msg_id, timed_out, woken, sum_readings, processing_round,
  send_data_size, send_result,
}

-- The doubles of a `SENSOR_DATA`, in order.
abbrev pub readings : List ℕ → List ℕ
readings s =
    peek 8 s 0
    ∷ peek 8 s 8
    ∷ peek 8 s 16
    ∷ peek 8 s 24
    ∷ peek 8 s 32
    ∷ peek 8 s 40
    ∷ peek 8 s 48
    ∷ peek 8 s 56
    ∷ peek 8 s 64
    ∷ peek 8 s 72
    ∷ peek 8 s 80
    ∷ []

-- The sum of a list of doubles from left to right, onto a first one.
abbrev pub sum_onto : Arithmetic → ℕ → List ℕ → ℕ
sum_onto a x [] = x
sum_onto a x (y ∷ ys) = sum_onto a (a.add x y) ys

abbrev pub total : Arithmetic → List ℕ → ℕ
total a [] = 0
total a (x ∷ xs) = sum_onto a x xs

module _ (a : Arithmetic) where
  sum_readings-total :
      (s : List ℕ) → sizeof_sensor_data ≤ length s → sum_readings a s ≡ some (total a (readings s))
  unfolding sum_readings
  sum_readings-total s h = grind (arith, load_in_range)

  total-lt : (s : List ℕ) → total a (readings s) < 2 ^ 64
  total-lt s = a.add-lt _ _

readings_cong :
    (s t : List ℕ)
    → ((j : ℕ) → j < sizeof_sensor_data → byte_at s j ≡ byte_at t j)
    → readings s ≡ readings t
readings_cong s t h =
    rw
      (
        double 0 (omega arith),
        double 8 (omega arith),
        double 16 (omega arith),
        double 24 (omega arith),
        double 32 (omega arith),
        double 40 (omega arith),
        double 48 (omega arith),
        double 56 (omega arith),
        double 64 (omega arith),
        double 72 (omega arith),
        double 80 (omega arith),
      )
      refl
  where
    double : (k : ℕ) → k + 8 ≤ sizeof_sensor_data → peek 8 s k ≡ peek 8 t k
    double k r = peek_cong 8 s t k (λ j low high. h j (omega arith))

-- What an iteration that is woken sends: one whole packet, a frame of the processing command with
-- the sum of the readings in both members.
pub record IsSum (a : Arithmetic) (shared packet : List ℕ) : Type 0 where
  pub size : length packet ≡ send_data_size
  pub frame : IsFrame no_id (answer_size processing_data_id) packet
  pub command : peek 2 packet 9 ≡ processing_data_id
  pub azimuth : peek 8 packet 11 ≡ total a (readings shared)
  pub elevation : peek 8 packet 19 ≡ total a (readings shared)

module _ (a : Arithmetic) (p : Processor) (shared : List ℕ)
    (held : length p.sensor_data ≡ sizeof_sensor_data) (room : length p.packet ≡ send_data_size)
    (whole : length shared ≡ sizeof_sensor_data) where
  local : List ℕ
  local = copied sizeof_sensor_data p.sensor_data shared

  length-local : length local ≡ sizeof_sensor_data
  unfolding local
  length-local =
      length-copied sizeof_sensor_data p.sensor_data shared (omega arith) (omega arith) ∙ held

  sum : ℕ
  sum = total a (readings shared)

  filled : List ℕ
  filled = poke 8 (poke 8 p.packet 11 sum) 19 sum

  sum_readings-local : sum_readings a local ≡ some sum
  unfolding local sum
  sum_readings-local =
      sum_readings-total a local
        (omega (arith, length-copied sizeof_sensor_data p.sensor_data shared))
      ∙ ap (λ xs. some (total a xs))
          (readings_cong local shared (λ j q.
            copied_inside sizeof_sensor_data p.sensor_data shared j (omega arith) (omega arith) q))

  filled_sums : (peek 8 filled 11 ≡ sum) × (peek 8 filled 19 ≡ sum)
  unfolding filled sum send_data_size get_send_cmd_size
  filled_sums = grind (arith, total-lt a shared, length-poke, peek-poke_self, peek-poke_apart)

  answer_of_processing : answer_size processing_data_id ≡ 16
  unfolding get_send_cmd_size
  answer_of_processing = refl

  room_size : length p.packet ≡ 30
  unfolding send_data_size get_send_cmd_size
  room_size = room

  length-filled : length filled ≡ send_data_size
  unfolding filled
  length-filled = length-poke 8 _ 19 _ ∙ length-poke 8 p.packet 11 _ ∙ room

  make_send_packet-filled :
      (packet : List ℕ) × (make_send_packet processing_data_id processing_msg_id filled
        ≡ some packet)
      × HasHeader no_id no_id
          (answer_size processing_data_id)
          processing_data_id
          (answer_size processing_data_id)
          filled
          packet
      × IsFrame no_id (answer_size processing_data_id) packet
  make_send_packet-filled =
      make_send_packet-IsFrame processing_data_id processing_msg_id filled (omega arith)
        (omega arith) (omega arith)
        (omega (arith, answer_of_processing, length-filled, room, room_size))

  -- An iteration that is woken succeeds: from the shared data at that time it sends one packet of
  -- `iSendDataSize` bytes to the client, a frame of the processing command whose azimuth and
  -- elevation are both the sum of the eleven readings from left to right, and its copy of the sensor
  -- data keeps its size and its socket stays. One that timed out does nothing.
  pub processing_round-IsSum :
      (processing_round a p timed_out shared ≡ some p)
      × (next : Processor) × (processing_round a p woken shared ≡ some next)
      × IsSum a shared next.packet
      × (next.effects ≡ p.effects ++ (Effect.send p.client_sock next.packet ∷ []))
      × (length next.sensor_data ≡ sizeof_sensor_data)
      × (next.client_sock ≡ p.client_sock)
  unfolding processing_round send_result local filled sum
  processing_round-IsSum =
      let (packet, built, header, frame) = make_send_packet-filled in
      (
        refl,
        record {
          sensor_data = local;
          packet = packet;
          client_sock = p.client_sock;
          effects = p.effects ++ (Effect.send p.client_sock packet ∷ []);
        },
        rw
            (
              copy_in_range sizeof_sensor_data p.sensor_data shared (omega arith) (omega arith),
              sum_readings-local,
              store_in_range 8 p.packet 11 sum (omega (arith, room_size)),
              store_in_range 8 (poke 8 p.packet 11 sum) 19 sum
                  (omega (arith, room_size, length-poke 8 p.packet 11 sum)),
              built,
            )
            refl,
        record {
          size = header.same_length ∙ length-filled;
          frame = frame;
          command = header.command;
          azimuth =
              peek_cong 8 packet filled 11
                (λ j low high. header.payload j (omega arith) (omega (arith, answer_of_processing)))
              ∙ filled_sums.0;
          elevation =
              peek_cong 8 packet filled 19
                (λ j low high. header.payload j (omega arith) (omega (arith, answer_of_processing)))
              ∙ filled_sums.1;
        },
        refl,
        length-local,
        refl,
      )

-- What follows the copy, by itself.
pub send_result-IsSum :
    (a : Arithmetic) (q : Processor)
    → length q.sensor_data ≡ sizeof_sensor_data
    → length q.packet ≡ send_data_size
    → (p : Processor) × (send_result a q ≡ some p)
      × IsSum a q.sensor_data p.packet
      × (p.effects ≡ q.effects ++ (Effect.send q.client_sock p.packet ∷ []))
unfolding processing_round
send_result-IsSum a q held room =
    let (idle, p, done, sum, effects, size, sock) =
      processing_round-IsSum a q q.sensor_data held room held in
    (
      p,
      sym (
            rw
              (
                copy_in_range sizeof_sensor_data q.sensor_data q.sensor_data (omega arith)
                    (omega arith),
                take-drop sizeof_sensor_data q.sensor_data,
              )
              refl)
          ∙ done,
      sum,
      effects,
    )
