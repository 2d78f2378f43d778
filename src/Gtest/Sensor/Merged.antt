-- ===== src/Gtest/Sensor/Merged.antt =====
-- Results that the test does not receive one by one.
pub mod Tests
use mathlib.Core.List.{append_assoc, append-nil}
use communicate_core.Common.{
  ℕ, suc, ◌+◌, ◌*◌, ◌≤◌, ◌≡◌, refl, sym, ap, ◌∙◌, List, [], ◌∷◌, ◌++◌, Bool, true, some, ◌&&◌,
  arith, length, length-append,
}
use communicate_core.Sensor.Latest.Defs.{view, Reading, AllReadings, replay, in_order}
use communicate_core.Sensor.Latest.Refinement.{in_order_cong}
use communicate_core.Sensor.Processing.{Arithmetic, woken, send_data_size}
use communicate_core.Command.{get_send_cmd_size}
use communicate_core.Sensor.Processing.Results.{IsSum, total, readings}
use communicate_core.Gtest.Sensor.Receiving.{after, Act, turns, receives, Receiving, check_results}
use communicate_core.Gtest.Sensor.Turns.{IsFine, woken-Turned, receives_packet}

-- Iterations that are woken, each behind some messages, and then a receive.
abbrev pub burst : List (List Reading) → List Act
burst [] = receives ∷ []
burst (messages ∷ more) = turns (after messages woken) ∷ burst more

abbrev pub AllBatches : List (List Reading) → Type 0
AllBatches [] = Unit {0}
AllBatches (messages ∷ more) = AllReadings messages × AllBatches more

module _ (a : Arithmetic) (near : ℕ → Bool) where
  length-result : (shared packet : List ℕ) → IsSum a shared packet → length packet ≡ 30
  unfolding send_data_size get_send_cmd_size
  length-result shared packet sum = sum.size

  -- What the iterations put behind what is in the socket.
  record Bursts (t : Receiving) (more : List (List Reading)) : Type 0 where
    last : Receiving
    bytes : List ℕ
    runs : check_results a near t (burst more) ≡ check_results a near last (receives ∷ [])
    left : last.left ≡ t.left
    passed : last.passed ≡ t.passed
    in_socket : last.in_socket ≡ t.in_socket ++ bytes
    size : length bytes ≡ 30 * length more

  bursts : (more : List (List Reading)) (t : Receiving) → IsFine t → AllBatches more → Bursts t more
  unfolding check_results
  bursts [] t fine all = record {
    last = t;
    bytes = [];
    runs = refl;
    left = refl;
    passed = refl;
    in_socket = sym (append-nil t.in_socket);
    size = refl;
  }
  bursts (messages ∷ more) t fine all =
      let (next, packet, turned, sum) = woken-Turned a near t messages fine all.0 in
      let rest = bursts more next turned.fine all.1 in
      record {
        last = rest.last;
        bytes = packet ++ rest.bytes;
        runs = rw turned.made rest.runs;
        left = rest.left ∙ turned.left;
        passed = rest.passed ∙ turned.passed;
        in_socket =
            rest.in_socket
            ∙ ap (λ l. l ++ rest.bytes) turned.in_socket
            ∙ append_assoc t.in_socket packet rest.bytes;
        size = omega (
          arith,
          length-append packet rest.bytes,
          length-result next.collector.sensor_data packet sum,
          rest.size,
        );
      }

  -- Let up to four results come before the test receives, with the socket empty at first and a round
  -- to come. Then one round takes all of them: the socket is empty again, so that of the others none
  -- makes a round, and the expectations are those of the first result alone, the sum of the latest
  -- readings at the first wake.
  pub results_merged :
      (messages : List Reading) (more : List (List Reading)) (t : Receiving) (rounds : ℕ)
      → IsFine t
      → t.in_socket ≡ []
      → t.passed ≡ true
      → t.left ≡ suc rounds
      → length more ≤ 3
      → AllBatches (messages ∷ more)
      → (last : Receiving) × (check_results a near t (burst (messages ∷ more)) ≡ some last)
        × (last.left ≡ rounds)
        × (last.in_socket ≡ [])
        × (last.passed ≡ near (total a (in_order (replay messages (view t.collector.sensor_data)))))
  unfolding check_results
  results_merged messages more t rounds fine empty so_far some_left few all =
      let (first, packet, turned, sum) = woken-Turned a near t messages fine all.0 in
      let rest = bursts more first turned.fine all.1 in
      (
        record rest.last {
          in_socket = [];
          left = rounds;
          passed = rest.last.passed && near (total a (readings first.collector.sensor_data));
        },
        rw
            (
              turned.made,
              rest.runs,
              rest.left ∙ turned.left ∙ some_left,
              rest.in_socket
                  ∙ ap (λ l. l ++ rest.bytes) (turned.in_socket ∙ ap (λ l. l ++ packet) empty),
              receives_packet a near rest.last rounds first.collector.sensor_data packet rest.bytes
                  sum (omega (arith, rest.size, few)),
            )
            refl,
        refl,
        refl,
        ap (λ ok. ok && near (total a (readings first.collector.sensor_data)))
              (rest.passed ∙ turned.passed ∙ so_far)
            ∙ ap (λ xs. near (total a xs))
                (in_order_cong (view first.collector.sensor_data) _ turned.agrees),
      )
