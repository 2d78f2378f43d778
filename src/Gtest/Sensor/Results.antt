-- ===== src/Gtest/Sensor/Results.antt =====
-- The loop of gtest-sensor-integration.cc that receives ten results and looks at them.
pub mod Tests
use communicate_core.Common.{
  ℕ, zero, suc, ◌++◌, ◌-◌, drop, drop-length_append, take_all, ◌+◌, ◌≤◌, ◌<◌, ◌≡◌, inl, inr, refl,
  sym, ap, ap₂, ◌∙◌, List, [], ◌∷◌, Bool, true, false, Option, none, some, ◌>>=◌, ◌&&◌, ◌==◌,
  if◌then◌else◌, arith, length, replicate, length-replicate, String,
}
use mathlib.Core.List.{append-nil}
use communicate_core.Common.{◌⊎◌}
use communicate_core.Memory.{
  load, peek, peek_cong, copy_bytes, copied, copy_in_range, length-copied, copied_inside,
  load_in_range, IsBytes,
}
use communicate_core.Command.{get_send_cmd_size}
use communicate_core.Command.Ids.{sizeof_double, sizeof_sensor_data}
use communicate_core.Frame.Layout.{
  MsgId, sizeof_frame_header, extern1_id, extern2_id, extern3_id, extern4_id, frame_size,
}
use communicate_core.Sensor.Readings.{Sensor, extern1, extern2, extern3, extern4}
use communicate_core.Sensor.Pipeline.{doubles}
use communicate_core.Sensor.Data.{Effect}
use communicate_core.Sensor.Collector.{Collector}
use communicate_core.Sensor.Collector.Frames.{IsWell}
use communicate_core.Sensor.Latest.Defs.{
  Latest, view, Reading, AllReadings, replay, collect_all, in_order,
}
use communicate_core.Sensor.Latest.Steps.{Agrees, replay_cong, Agrees-trans}
use communicate_core.Sensor.Latest.Refinement.{collect_all-Agrees, in_order_cong}
use communicate_core.Sensor.Processing.{
  Arithmetic, Processor, Waited, timed_out, woken, processing_round, send_data_size,
}
use communicate_core.Sensor.Processing.Results.{IsSum, total, readings, processing_round-IsSum}
use communicate_core.Gtest.Sensor.Receiving.{
  check_result, Turn, after, Act, turns, receives, Receiving, stream_of, make_turn, receive_result,
  check_results, result_size,
}
use communicate_core.Gtest.Sensor.Turns.{
  IsFine, Turned, timed_out-Turned, woken-Turned, receives_nothing, receives_packet,
}

-- The test waits in its receive and takes what an iteration sends before the next one.
abbrev pub promptly : List Turn → List Act
promptly [] = []
promptly (turn ∷ rest) = turns turn ∷ receives ∷ promptly rest

abbrev pub woken_count : List Turn → ℕ
woken_count [] = 0
woken_count (after messages timed_out ∷ rest) = woken_count rest
woken_count (after messages woken ∷ rest) = suc (woken_count rest)

-- The expectation of the latest readings at each of the first results.
abbrev pub verdict : Arithmetic → (ℕ → Bool) → Latest → ℕ → List Turn → Bool
verdict a near f zero rest = true
verdict a near f (suc left) [] = true
verdict a near f (suc left) (after messages timed_out ∷ rest) =
    verdict a near (replay messages f) (suc left) rest
verdict a near f (suc left) (after messages woken ∷ rest) =
    near (total a (in_order (replay messages f))) && verdict a near (replay messages f) left rest

abbrev pub AllTurns : List Turn → Type 0
AllTurns [] = Unit {0}
AllTurns (after messages ret ∷ rest) = AllReadings messages × AllTurns rest

and_assoc : (x y z : Bool) → (x && y) && z ≡ x && (y && z)
and_assoc true y z = refl
and_assoc false y z = refl

and_true : (x : Bool) → x ≡ x && true
and_true true = refl
and_true false = refl

module _ (a : Arithmetic) (near : ℕ → Bool) where
  verdict_cong :
      (rest : List Turn) (left : ℕ) (f g : Latest)
      → Agrees f g
      → verdict a near f left rest ≡ verdict a near g left rest
  verdict_cong rest zero f g h = refl
  verdict_cong [] (suc left) f g h = refl
  verdict_cong (after ms timed_out ∷ rest) (suc left) f g h =
      verdict_cong rest (suc left) (replay ms f) (replay ms g) (replay_cong ms f g h)
  verdict_cong (after ms woken ∷ rest) (suc left) f g h =
      ap₂ (λ xs ok. near (total a xs) && ok)
        (in_order_cong (replay ms f) (replay ms g) (replay_cong ms f g h))
        (verdict_cong rest left (replay ms f) (replay ms g) (replay_cong ms f g h))

  verdict-nil : (left : ℕ) (f : Latest) → verdict a near f left [] ≡ true
  verdict-nil zero f = refl
  verdict-nil (suc left) f = refl

  verdict-timed_out :
      (ms : List Reading) (rest : List Turn) (left : ℕ) (f : Latest)
      → verdict a near f left (after ms timed_out ∷ rest) ≡ verdict a near (replay ms f) left rest
  verdict-timed_out ms rest zero f = refl
  verdict-timed_out ms rest (suc left) f = refl

  nothing_there : (left : ℕ) (bytes : List ℕ) → (suc left ≡ 0) ⊎ (bytes ≡ []) → bytes ≡ []
  nothing_there left bytes (inl no_round) = absurd (cc no_round)
  nothing_there left bytes (inr nothing) = nothing

  -- How the loop stands behind its turns.
  pub record Ends (t : Receiving) (left : ℕ) (rest : List Turn) : Type 0 where
    pub last : Receiving
    pub done : check_results a near t (promptly rest) ≡ some last
    pub left_over : last.left ≡ left - woken_count rest
    pub passed : last.passed ≡ t.passed && verdict a near (view t.collector.sensor_data) left rest

  check_results-Ends :
      (rest : List Turn) (left : ℕ) (t : Receiving)
      → t.left ≡ left
      → (left ≡ 0) ⊎ (t.in_socket ≡ [])
      → IsFine t
      → AllTurns rest
      → Ends t left rest
  unfolding check_results
  check_results-Ends [] left t same empty fine all = record {
    last = t;
    done = refl;
    left_over = omega arith;
    passed =
        and_true t.passed
        ∙ ap (λ ok. t.passed && ok) (sym (verdict-nil left (view t.collector.sensor_data)));
  }
  check_results-Ends (after ms timed_out ∷ rest) left t same empty fine all =
      let (next, turned) = timed_out-Turned a near t ms fine all.0 in
      let now_empty : (left ≡ 0) ⊎ (next.in_socket ≡ []) = elim empty [
        | inl no_round ↦ inl no_round
        | inr nothing ↦ inr (turned.in_socket ∙ rw nothing refl)
      ] in
      let ends =
        check_results-Ends rest left next (turned.left ∙ same) now_empty turned.fine all.1 in
      record {
        last = ends.last;
        done =
            rw
              (
                turned.made,
                turned.left ∙ same,
                receives_nothing a near next left next.in_socket now_empty,
              )
              ends.done;
        left_over = ends.left_over;
        passed =
            ends.passed
            ∙ ap₂ (λ x y. x && y) turned.passed
                (verdict_cong rest left _ _ turned.agrees
                  ∙ sym (verdict-timed_out ms rest left (view t.collector.sensor_data)));
      }
  check_results-Ends (after ms woken ∷ rest) zero t same empty fine all =
      let (next, packet, turned, sum) = woken-Turned a near t ms fine all.0 in
      let ends =
        check_results-Ends rest zero next (turned.left ∙ same) (inl refl) turned.fine all.1 in
      record {
        last = ends.last;
        done =
            rw
              (
                turned.made,
                turned.left ∙ same,
                receives_nothing a near next 0 next.in_socket (inl refl),
              )
              ends.done;
        left_over = omega (arith, ends.left_over);
        passed = ends.passed ∙ ap (λ ok. ok && true) turned.passed;
      }
  check_results-Ends (after ms woken ∷ rest) (suc left) t same empty fine all =
      let (next, packet, turned, sum) = woken-Turned a near t ms fine all.0 in
      let latest = replay ms (view t.collector.sensor_data) in
      let received : Receiving = record next {
        in_socket = [];
        left = left;
        passed = next.passed && near (total a (readings next.collector.sensor_data));
      } in
      let ends =
        check_results-Ends rest left received refl (inr refl)
          (record { well = turned.fine.well; held = turned.fine.held; room = turned.fine.room })
          all.1 in
      record {
        last = ends.last;
        done =
            rw
              (
                turned.made,
                turned.left ∙ same,
                turned.in_socket
                    ∙ ap (λ l. l ++ packet) (nothing_there left t.in_socket empty)
                    ∙ sym (append-nil packet),
                receives_packet a near next left next.collector.sensor_data packet [] sum
                    (omega arith),
              )
              ends.done;
        left_over = omega (arith, ends.left_over);
        passed =
            ends.passed
            ∙ and_assoc next.passed _ _
            ∙ ap₂ (λ x y. x && y) turned.passed
                (ap₂ (λ xs ok. near (total a xs) && ok)
                  (in_order_cong (view next.collector.sensor_data) latest turned.agrees)
                  (verdict_cong rest left (view next.collector.sensor_data) latest turned.agrees));
      }

  -- Let the test receive what an iteration sends before the next one, with the socket empty at first
  -- and any number of rounds before it. Whatever the sensors send, and however the processor's waits
  -- return, each wake makes a round, so that as many rounds are left as wakes are missing: the loop
  -- comes to its end exactly if the processor was woken that often. And so far all expectations hold
  -- exactly if, at each of the first wakes, as many as there are rounds, the sum of the latest
  -- readings is near the expected one.
  pub check_results-verdict :
      (rest : List Turn) (t : Receiving)
      → t.in_socket ≡ []
      → t.passed ≡ true
      → IsFine t
      → AllTurns rest
      → (last : Receiving) × (check_results a near t (promptly rest) ≡ some last)
        × (last.left ≡ t.left - woken_count rest)
        × (last.passed ≡ verdict a near (view t.collector.sensor_data) t.left rest)
  check_results-verdict rest t empty so_far fine all =
      let ends = check_results-Ends rest t.left t refl (inr empty) fine all in
      (
        ends.last,
        ends.done,
        ends.left_over,
        ends.passed
            ∙ ap (λ ok. ok && verdict a near (view t.collector.sensor_data) t.left rest) so_far,
      )
