-- ===== src/Control/Drain/Tests.antt =====
-- Two iterations for a message of `DATA_SIZE` bytes.
use communicate_core.Common.{◌≡◌, refl, [], ◌∷◌, some, arith, replicate}
use communicate_core.Control.Defs.{Control}
use communicate_core.Control.Drain.{rounds, IsDrained, rounds-IsDrained}

abbrev full : Control
full = record {
  buffer = replicate 128 0;
  cmd_pipe = replicate 128 7;
  ctrl_pipe = 1 ∷ [];
  cmd_read = [];
  ctrl_read = [];
}

rounds-IsDrained_example : (last : Control) × (rounds 2 full ≡ some last) × IsDrained full last
rounds-IsDrained_example = rounds-IsDrained 2 full refl (omega arith) (omega arith)
