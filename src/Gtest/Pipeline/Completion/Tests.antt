-- ===== src/Gtest/Pipeline/Completion/Tests.antt =====
-- One message of each kind, read in one iteration.
use communicate_core.Common.{◌≡◌, ◌⊎◌, refl, true, arith}
use communicate_core.Memory.{store, poke, copy_bytes}
use communicate_core.Control.{forward}
use communicate_core.Gtest.Pipeline.Defs.{
  c_string, equal_bytes, print_text, read_checked, Pipeline, send_command, send_process,
  check_command, check_process, goes_on, test_round, set_up, sends_command, sends_process, reads,
  PromptRun, here, next,
}
use communicate_core.Gtest.Pipeline.Completion.{IsPassed, PromptRun-IsPassed}

abbrev both_read : Pipeline
both_read = record set_up {
  commands_sent = 1;
  processes_sent = 1;
  command_count = 1;
  process_count = 1;
}

both_read_run : PromptRun set_up both_read
unfolding send_command send_process forward test_round check_command check_process read_checked
    print_text copy_bytes store poke c_string equal_bytes
both_read_run =
    next
      (next (next here (sends_command set_up (omega arith) refl))
        (sends_process (send_command set_up) (omega arith) refl))
      (reads (send_process (send_command set_up)) both_read refl refl)

PromptRun-IsPassed_example :
    (both_read.passed ≡ true)
    × ((goes_on both_read ≡ true) ⊎ IsPassed both_read)
    × (u : Pipeline) × PromptRun both_read u
    × IsPassed u
PromptRun-IsPassed_example = PromptRun-IsPassed both_read both_read_run
