-- ===== src/Gtest/Sensor/Turns.antt =====
-- An iteration of the processor and a receive of the test, one by one.
use communicate_core.Common.{
  ℕ, zero, suc, ◌++◌, drop, drop-length_append, take_all, ◌+◌, ◌≤◌, ◌≡◌, inl, inr, refl, ap, ◌∙◌,
  List, [], ◌∷◌, Bool, true, false, some, ◌&&◌, arith, length, replicate,
}
use mathlib.Core.List.{append-nil}
use communicate_core.Common.{◌⊎◌}
use communicate_core.Common.{◌<◌, length-append}
use communicate_core.Memory.{byte_at}
use communicate_core.Memory.{
  peek, peek_cong, copied, copy_in_range, length-copied, copied_inside, load_in_range,
}
use communicate_core.Command.{get_send_cmd_size}
use communicate_core.Command.Ids.{sizeof_sensor_data}
use communicate_core.Sensor.Data.{Effect}
use communicate_core.Sensor.Collector.Frames.{IsWell}
use communicate_core.Sensor.Latest.Defs.{view, Reading, AllReadings, replay}
use communicate_core.Sensor.Latest.Steps.{Agrees}
use communicate_core.Sensor.Latest.Refinement.{collect_all-Agrees}
use communicate_core.Sensor.Processing.{Arithmetic, Waited, timed_out, woken, send_data_size}
use communicate_core.Sensor.Processing.Results.{IsSum, total, readings, processing_round-IsSum}
use communicate_core.Gtest.Sensor.Receiving.{
  check_result, after, Receiving, stream_of, make_turn, receive_result,
}

drop-length : {A : Type 0} (xs : List A) → drop (length xs) xs ≡ []
drop-length [] = refl
drop-length (x ∷ xs) = drop-length xs

drop-all : {A : Type 0} (n : ℕ) (xs : List A) → length xs ≤ n → drop n xs ≡ []
drop-all zero [] h = refl
drop-all zero (x ∷ xs) h = absurd (omega arith)
drop-all (suc n) [] h = refl
drop-all (suc n) (x ∷ xs) h = drop-all n xs (omega arith)

-- A state in which both threads are well.
pub record IsFine (t : Receiving) : Type 0 where
  pub well : IsWell t.collector
  pub held : length t.processor.sensor_data ≡ sizeof_sensor_data
  pub room : length t.processor.packet ≡ send_data_size

byte_at-append : (xs ys : List ℕ) (j : ℕ) → j < length xs → byte_at (xs ++ ys) j ≡ byte_at xs j
byte_at-append [] ys j h = absurd (omega arith)
byte_at-append (x ∷ xs) ys zero h = refl
byte_at-append (x ∷ xs) ys (suc j) h = byte_at-append xs ys j (omega arith)

module _ (a : Arithmetic) (near : ℕ → Bool) where
  -- A result in front of what a receive takes, which is at most the buffer's size.
  module _ (shared packet : List ℕ) (sum : IsSum a shared packet) (behind : List ℕ)
      (fits : length behind ≤ 98) where
    result_buf : List ℕ
    result_buf = copied (length (packet ++ behind)) (replicate 128 0) (packet ++ behind)

    length-packet : length packet ≡ 30
    unfolding send_data_size get_send_cmd_size
    length-packet = sum.size

    length-taken : length (packet ++ behind) ≡ 30 + length behind
    length-taken = omega (arith, length-packet, length-append packet behind)

    length-result_buf : length result_buf ≡ 128
    unfolding result_buf
    length-result_buf =
        length-copied (length (packet ++ behind)) (replicate 128 0) (packet ++ behind)
          (omega (arith, length-taken)) (omega arith)

    peek-result_buf : (at : ℕ) → at + 8 ≤ 30 → peek 8 result_buf at ≡ peek 8 packet at
    unfolding result_buf
    peek-result_buf at room = peek_cong 8 result_buf packet at λ j low high.
        copied_inside (length (packet ++ behind)) (replicate 128 0) (packet ++ behind) j
          (omega arith) (omega (arith, length-taken)) (omega (arith, length-taken))
        ∙ byte_at-append packet behind j (omega (arith, length-packet))

    twice : (b : Bool) → b && b ≡ b
    twice true = refl
    twice false = refl

    check_result-sum :
        check_result near (packet ++ behind) ≡ some (near (total a (readings shared)))
    unfolding check_result result_buf
    check_result-sum =
        rw
          (
            copy_in_range (length (packet ++ behind)) (replicate 128 0) (packet ++ behind)
                (omega (arith, length-taken)) (omega arith),
            load_in_range 8 result_buf 11 (omega (arith, length-result_buf)),
            load_in_range 8 result_buf 19 (omega (arith, length-result_buf)),
            peek-result_buf 11 (omega arith) ∙ sum.azimuth,
            peek-result_buf 19 (omega arith) ∙ sum.elevation,
          )
          (ap some (twice (near (total a (readings shared)))))

  -- An iteration leaves the test as it was, and its result in the socket if it was woken.
  pub record Turned (t : Receiving) (messages : List Reading) (ret : Waited) (packets : List ℕ)
      (next : Receiving) : Type 0 where
    pub made : make_turn a t (after messages ret) ≡ some next
    pub fine : IsFine next
    pub left : next.left ≡ t.left
    pub passed : next.passed ≡ t.passed
    pub agrees :
        Agrees (view next.collector.sensor_data) (replay messages (view t.collector.sensor_data))
    pub in_socket : next.in_socket ≡ t.in_socket ++ packets

  pub timed_out-Turned :
      (t : Receiving) (messages : List Reading)
      → IsFine t
      → AllReadings messages
      → (next : Receiving) × Turned t messages timed_out [] next
  unfolding make_turn stream_of
  timed_out-Turned t messages fine all =
      let (last, done, well', agrees) = collect_all-Agrees messages t.collector fine.well all in
      let (idle, p, woke, sum, effects, held, sock) =
        processing_round-IsSum a t.processor last.sensor_data fine.held fine.room
          well'.sensor_size in
      (
        record t { collector = last; in_socket = t.in_socket ++ [] },
        record {
          made = rw (done, idle, drop-length t.processor.effects) refl;
          fine = record { well = well'; held = fine.held; room = fine.room };
          left = refl;
          passed = refl;
          agrees = agrees;
          in_socket = refl;
        },
      )

  pub woken-Turned :
      (t : Receiving) (messages : List Reading)
      → IsFine t
      → AllReadings messages
      → (next : Receiving) × (packet : List ℕ) × Turned t messages woken packet next
        × IsSum a next.collector.sensor_data packet
  unfolding make_turn stream_of
  woken-Turned t messages fine all =
      let (last, done, well', agrees) = collect_all-Agrees messages t.collector fine.well all in
      let (idle, p, woke, sum, effects, held, sock) =
        processing_round-IsSum a t.processor last.sensor_data fine.held fine.room
          well'.sensor_size in
      (
        record t { collector = last; processor = p; in_socket = t.in_socket ++ p.packet },
        p.packet,
        record {
          made =
              rw
                (
                  done,
                  woke,
                  effects,
                  drop-length_append t.processor.effects
                      (Effect.send t.processor.client_sock p.packet ∷ []),
                  append-nil p.packet,
                )
                refl;
          fine = record { well = well'; held = held; room = sum.size };
          left = refl;
          passed = refl;
          agrees = agrees;
          in_socket = refl;
        },
        sum,
      )

  -- A receive that has nothing to take, or no round to take it for.
  pub receives_nothing :
      (t : Receiving) (left : ℕ) (bytes : List ℕ)
      → (left ≡ 0) ⊎ (bytes ≡ [])
      → receive_result near t left bytes ≡ some t
  unfolding receive_result
  receives_nothing t zero bytes h = refl
  receives_nothing t (suc left) bytes (inl no_round) = absurd (cc no_round)
  receives_nothing t (suc left) bytes (inr empty) = rw empty refl

  -- A receive takes all that is there, and looks at the first result of it.
  pub receives_packet :
      (t : Receiving) (left : ℕ) (shared packet behind : List ℕ)
      → IsSum a shared packet
      → length behind ≤ 98
      → receive_result near t (suc left) (packet ++ behind)
        ≡ some (record t {
          in_socket = [];
          left = left;
          passed = t.passed && near (total a (readings shared));
        })
  unfolding receive_result
  receives_packet t left shared [] behind sum fits =
      absurd (omega (arith, length-packet shared [] sum behind fits))
  receives_packet t left shared (x ∷ xs) behind sum fits =
      let whole = length-taken shared (x ∷ xs) sum behind fits in
      rw
        (
          take_all 128 (x ∷ (xs ++ behind)) (omega (arith, whole)),
          check_result-sum shared (x ∷ xs) sum behind fits,
          drop-all 127 (xs ++ behind) (omega (arith, whole)),
        )
        refl
