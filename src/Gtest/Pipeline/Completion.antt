-- ===== src/Gtest/Pipeline/Completion.antt =====
-- How the test comes to its end.
pub mod Tests
use communicate_core.Common.{
  ℕ, zero, suc, ◌+◌, ◌-◌, ◌≤◌, ◌<◌, ◌≡◌, ◌⊎◌, inl, inr, refl, ◌∙◌, sym, [], true, false, some,
  Bool-cases, arith, ltb, ◌==◌, ◌&&◌,
}
use communicate_core.Gtest.Pipeline.Defs.{
  command_text, process_text, message_count, Pipeline, send_command, send_process, goes_on,
  test_round, set_up, sends_command, sends_process, reads, PromptRun, here, next,
}
use communicate_core.Gtest.Pipeline.Runs.{
  InTurn, IsPrompt, IsRead, test_round-IsRead, PromptStep-IsPrompt, PromptRun-IsPrompt,
  set_up-IsPrompt,
}
use communicate_core.Gtest.Pipeline.Pipes.{final_expects}

PromptRun-trans : {t u v : Pipeline} → PromptRun t u → PromptRun u v → PromptRun t v
PromptRun-trans before here = before
PromptRun-trans before (next after step) = next (PromptRun-trans before after) step

-- A state with nothing in the pipes.
record AtRest (t : Pipeline) : Type 0 where
  prompt : IsPrompt t
  no_command : t.cmd_pipe ≡ []
  no_process : t.ctrl_pipe ≡ []

AtRest-counts :
    (t : Pipeline)
    → AtRest t
    → (t.commands_sent ≡ t.command_count) × (t.processes_sent ≡ t.process_count)
AtRest-counts t h = (
  elim h.prompt.commands [
    | inl (empty, same) ↦ same
    | inr (full, ahead) ↦ absurd (cc (full, h.no_command))
  ],
  elim h.prompt.processes [
    | inl (empty, same) ↦ same
    | inr (full, ahead) ↦ absurd (cc (full, h.no_process))
  ],
)

read_all :
    (t : Pipeline)
    → IsPrompt t
    → goes_on t ≡ true
    → (u : Pipeline) × PromptRun t u
      × AtRest u
      × (u.commands_sent ≡ t.commands_sent)
      × (u.processes_sent ≡ t.processes_sent)
read_all t h on =
    let (u, done, is) = test_round-IsRead t h in
    (
      u,
      next here (reads t u on done),
      record { prompt = is.prompt; no_command = is.no_command; no_process = is.no_process },
      is.commands_sent,
      is.processes_sent,
    )

send_one_command :
    (t : Pipeline)
    → AtRest t
    → t.commands_sent < message_count
    → (u : Pipeline) × PromptRun t u
      × AtRest u
      × (u.commands_sent ≡ t.commands_sent + 1)
      × (u.processes_sent ≡ t.processes_sent)
unfolding send_command
send_one_command t h more =
    let step = sends_command t more h.no_command in
    let counts = AtRest-counts t h in
    let (u, run, rest, sent, also) =
      read_all (send_command t) (PromptStep-IsPrompt step h.prompt)
        (ground (arith, counts, h.prompt.processes_le)) in
    (u, PromptRun-trans (next here step) run, rest, sent, also)

send_one_process :
    (t : Pipeline)
    → AtRest t
    → t.processes_sent < message_count
    → (u : Pipeline) × PromptRun t u
      × AtRest u
      × (u.processes_sent ≡ t.processes_sent + 1)
      × (u.commands_sent ≡ t.commands_sent)
unfolding send_process
send_one_process t h more =
    let step = sends_process t more h.no_process in
    let counts = AtRest-counts t h in
    let (u, run, rest, sent, also) =
      read_all (send_process t) (PromptStep-IsPrompt step h.prompt)
        (ground (arith, counts, h.prompt.commands_le)) in
    (u, PromptRun-trans (next here step) run, rest, also, sent)

send_commands :
    (n : ℕ) (t : Pipeline)
    → AtRest t
    → n + t.commands_sent ≡ message_count
    → (u : Pipeline) × PromptRun t u × AtRest u × (u.commands_sent ≡ message_count)
send_commands zero t h left = (t, here, h, omega arith)
send_commands (suc n) t h left =
    let (u, run, rest, sent, also) = send_one_command t h (omega arith) in
    let (v, run', rest', all) = send_commands n u rest (omega arith) in
    (v, PromptRun-trans run run', rest', all)

send_processes :
    (n : ℕ) (t : Pipeline)
    → AtRest t
    → n + t.processes_sent ≡ message_count
    → (u : Pipeline) × PromptRun t u
      × AtRest u
      × (u.processes_sent ≡ message_count)
      × (u.commands_sent ≡ t.commands_sent)
send_processes zero t h left = (t, here, h, omega arith, refl)
send_processes (suc n) t h left =
    let (u, run, rest, sent, also) = send_one_process t h (omega arith) in
    let (v, run', rest', all, same) = send_processes n u rest (omega arith) in
    (v, PromptRun-trans run run', rest', all, same ∙ also)

-- The end of the loop with all as the test expects.
pub record IsPassed (t : Pipeline) : Type 0 where
  pub left : goes_on t ≡ false
  pub strings : t.passed ≡ true
  pub counts : final_expects t ≡ true

ended-IsPassed : (t : Pipeline) → IsPrompt t → goes_on t ≡ false → IsPassed t
unfolding final_expects
ended-IsPassed t h ends = record {
  left = ends;
  strings = h.passes;
  counts = ground (arith, ends, h.commands, h.processes, h.commands_le, h.processes_le);
}

ends-IsPassed :
    (t : Pipeline) → IsPrompt t → goes_on t ≡ true → (u : Pipeline) × PromptRun t u × IsPassed u
ends-IsPassed t h on =
    let (a, run, rest, sent, also) = read_all t h on in
    let (b, run', rest', commands) =
      send_commands (message_count - a.commands_sent) a rest
        (omega (arith, rest.prompt.commands_le)) in
    let (c, run'', rest'', processes, same) =
      send_processes (message_count - b.processes_sent) b rest'
        (omega (arith, rest'.prompt.processes_le)) in
    let counts = AtRest-counts c rest'' in
    (
      c,
      PromptRun-trans (PromptRun-trans run run') run'',
      ended-IsPassed c rest''.prompt (ground (arith, counts, processes, same, commands)),
    )

-- In every run in which a stub's message comes only when its last one has been read, all
-- expectations of the strings hold at each time, and the loop goes on or is left with three messages
-- of each kind, as the test expects behind it. And from each state of such a run the run can go on
-- to the loop's end with all expectations met.
pub PromptRun-IsPassed :
    (t : Pipeline)
    → PromptRun set_up t
    → (t.passed ≡ true)
      × ((goes_on t ≡ true) ⊎ IsPassed t)
      × (u : Pipeline) × PromptRun t u
      × IsPassed u
PromptRun-IsPassed t run =
    let h = PromptRun-IsPrompt run set_up-IsPrompt in
    elim (Bool-cases (goes_on t)) [
      | inl on ↦ let (u, more, passed) = ends-IsPassed t h on in (h.passes, inl on, u, more, passed)
      | inr off ↦ let passed = ended-IsPassed t h off in (h.passes, inr passed, t, here, passed)
    ]
