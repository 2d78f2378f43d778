-- ===== src/Gtest/Pipeline/Runs.antt =====
-- Runs of the test in which no two messages are in a pipe at a time.
use mathlib.Core.Option.{some-injective}
use mathlib.Core.Path.{subst}
use communicate_core.Common.{
  ℕ, zero, suc, ◌+◌, ◌≤◌, ◌<◌, ◌≡◌, ◌⊎◌, inl, inr, refl, sym, ◌∙◌, List, [], ◌++◌, true, false,
  some, ◌&&◌, ltb, arith, length,
}
use communicate_core.Memory.{store, poke, copy_bytes}
use communicate_core.Control.{forward}
use communicate_core.Gtest.Pipeline.Defs.{
  command_text, process_text, message_count, c_string, equal_bytes, print_text, read_checked,
  Pipeline, send_command, send_process, check_command, check_process, goes_on, test_round, set_up,
  PromptStep, sends_command, sends_process, reads, PromptRun, here, next,
}

-- A read of exactly the expected message.
command_read :
    (n : ℕ)
    → n < message_count
    → read_checked command_text n (command_text n)
      ≡ some (record { pipe = []; count = n + 1; passed = true })
unfolding read_checked print_text copy_bytes store poke c_string equal_bytes
command_read zero h = refl
command_read (suc zero) h = refl
command_read (suc (suc zero)) h = refl
command_read (suc (suc (suc n))) h = absurd (omega arith)

process_read :
    (n : ℕ)
    → n < message_count
    → read_checked process_text n (process_text n)
      ≡ some (record { pipe = []; count = n + 1; passed = true })
unfolding read_checked print_text copy_bytes store poke c_string equal_bytes
process_read zero h = refl
process_read (suc zero) h = refl
process_read (suc (suc zero)) h = refl
process_read (suc (suc (suc n))) h = absurd (omega arith)

-- Two messages that are read at once are not what the test expects.
merged_read :
    (n : ℕ)
    → n < 2
    → read_checked command_text n (command_text n ++ command_text (n + 1))
      ≡ some (record { pipe = []; count = n + 1; passed = false })
unfolding read_checked print_text copy_bytes store poke c_string equal_bytes
merged_read zero h = refl
merged_read (suc zero) h = refl
merged_read (suc (suc n)) h = absurd (omega arith)

-- A pipe is empty, or holds the message whose turn it is.
abbrev pub InTurn : (ℕ → List ℕ) → (sent count : ℕ) → List ℕ → Type 0
InTurn text sent count pipe =
    ((pipe ≡ []) × (sent ≡ count)) ⊎ ((pipe ≡ text count) × (sent ≡ count + 1))

pub record IsPrompt (t : Pipeline) : Type 0 where
  pub commands : InTurn command_text t.commands_sent t.command_count t.cmd_pipe
  pub processes : InTurn process_text t.processes_sent t.process_count t.ctrl_pipe
  pub commands_le : t.commands_sent ≤ message_count
  pub processes_le : t.processes_sent ≤ message_count
  pub passes : t.passed ≡ true

check_command-IsPrompt :
    (t : Pipeline)
    → IsPrompt t
    → (u : Pipeline) × (check_command t (ltb 0 (length t.cmd_pipe)) ≡ some u)
      × IsPrompt u
      × (u.ctrl_pipe ≡ t.ctrl_pipe)
      × (u.cmd_pipe ≡ [])
      × (u.commands_sent ≡ t.commands_sent)
      × (u.processes_sent ≡ t.processes_sent)
unfolding check_command
check_command-IsPrompt t h = elim h.commands [
  | inl (empty, same) ↦ (t, rw empty refl, h, refl, empty, refl, refl)
  | inr (full, ahead) ↦ (
    record t { cmd_pipe = []; command_count = t.command_count + 1; passed = t.passed && true },
    rw (full, command_read t.command_count (omega (arith, h.commands_le))) refl,
    record {
      commands = inl (refl, ahead);
      processes = h.processes;
      commands_le = h.commands_le;
      processes_le = h.processes_le;
      passes = rw h.passes refl;
    },
    refl,
    refl,
    refl,
    refl,
  )
]

check_process-IsPrompt :
    (t : Pipeline)
    → IsPrompt t
    → (u : Pipeline) × (check_process t (ltb 0 (length t.ctrl_pipe)) ≡ some u)
      × IsPrompt u
      × (u.ctrl_pipe ≡ [])
      × (u.cmd_pipe ≡ t.cmd_pipe)
      × (u.commands_sent ≡ t.commands_sent)
      × (u.processes_sent ≡ t.processes_sent)
unfolding check_process
check_process-IsPrompt t h = elim h.processes [
  | inl (empty, same) ↦ (t, rw empty refl, h, empty, refl, refl, refl)
  | inr (full, ahead) ↦ (
    record t { ctrl_pipe = []; process_count = t.process_count + 1; passed = t.passed && true },
    rw (full, process_read t.process_count (omega (arith, h.processes_le))) refl,
    record {
      commands = h.commands;
      processes = inl (refl, ahead);
      commands_le = h.commands_le;
      processes_le = h.processes_le;
      passes = rw h.passes refl;
    },
    refl,
    refl,
    refl,
    refl,
  )
]

-- An iteration of the test reads all that there is.
pub record IsRead (t u : Pipeline) : Type 0 where
  pub prompt : IsPrompt u
  pub no_command : u.cmd_pipe ≡ []
  pub no_process : u.ctrl_pipe ≡ []
  pub commands_sent : u.commands_sent ≡ t.commands_sent
  pub processes_sent : u.processes_sent ≡ t.processes_sent

pub test_round-IsRead :
    (t : Pipeline) → IsPrompt t → (u : Pipeline) × (test_round t ≡ some u) × IsRead t u
unfolding test_round
test_round-IsRead t h =
    let (u, done, kept, same, empty, sent, also_sent) = check_command-IsPrompt t h in
    let (v, also, kept', empty', same', sent', also_sent') = check_process-IsPrompt u kept in
    (
      v,
      rw (done, sym same) also,
      record {
        prompt = kept';
        no_command = same' ∙ empty;
        no_process = empty';
        commands_sent = sent' ∙ sent;
        processes_sent = also_sent' ∙ also_sent;
      },
    )

pub PromptStep-IsPrompt : {t u : Pipeline} → PromptStep t u → IsPrompt t → IsPrompt u
unfolding send_command send_process forward
PromptStep-IsPrompt (sends_command t more empty) h = elim h.commands [
  | inl (none_there, same) ↦ record {
    commands = inr (rw (empty, same) refl, rw same refl);
    processes = h.processes;
    commands_le = omega arith;
    processes_le = h.processes_le;
    passes = h.passes;
  }
  | inr (full, ahead) ↦ absurd (cc (full, empty))
]
PromptStep-IsPrompt (sends_process t more empty) h = elim h.processes [
  | inl (none_there, same) ↦ record {
    commands = h.commands;
    processes = inr (rw (empty, same) refl, rw same refl);
    commands_le = h.commands_le;
    processes_le = omega arith;
    passes = h.passes;
  }
  | inr (full, ahead) ↦ absurd (cc (full, empty))
]
PromptStep-IsPrompt (reads t u more done) h =
    let (v, found, kept) = test_round-IsRead t h in
    subst IsPrompt (some-injective v u (sym found ∙ done)) kept.prompt

pub PromptRun-IsPrompt : {t u : Pipeline} → PromptRun t u → IsPrompt t → IsPrompt u
PromptRun-IsPrompt here h = h
PromptRun-IsPrompt (next before step) h = PromptStep-IsPrompt step (PromptRun-IsPrompt before h)

pub set_up-IsPrompt : IsPrompt set_up
set_up-IsPrompt = record {
  commands = inl (refl, refl);
  processes = inl (refl, refl);
  commands_le = omega arith;
  processes_le = omega arith;
  passes = refl;
}

-- In every run in which a stub's message comes only when its last one has been read: all
-- expectations of the strings hold so far, the test's next iteration does not leave its buffers,
-- and once the loop is left three messages of each kind were read, as the test expects.
pub PromptRun-passes :
    (t : Pipeline)
    → PromptRun set_up t
    → (t.passed ≡ true)
      × ((u : Pipeline) × (test_round t ≡ some u))
      × (goes_on t ≡ false → (t.command_count ≡ message_count) × (t.process_count ≡ message_count))
PromptRun-passes t run =
    let h = PromptRun-IsPrompt run set_up-IsPrompt in
    let (u, done, kept) = test_round-IsRead t h in
    (
      h.passes,
      (u, done),
      λ ends. ground (arith, ends, h.commands, h.processes, h.commands_le, h.processes_le),
    )
