-- ===== src/Handler/Dispatch/Tests.antt =====
-- The dispatch at single commands.
use communicate_core.Common.{◌≡◌, refl, [], ◌∷◌, true, some, arith, replicate, minus_one}
use communicate_core.Memory.{store}
use communicate_core.Handler.Defs.{Pointer, keep_alive}
use communicate_core.Handler.Table.{logging, dispatch_command}
use communicate_core.Handler.Effect.{reach, effect}
use communicate_core.Handler.Dispatch.{expected_result, expected_log, dispatch_command-effect}

abbrev payload : Pointer
payload = record { mem = replicate 40 7; at = 11 }

abbrev small : Pointer
small = record { mem = replicate 4 0; at = 1 }

keep_alive_runs :
    dispatch_command 0 payload small true
    ≡ some (record {
      mem = 0 ∷ 1 ∷ 0 ∷ 0 ∷ [];
      result = 0;
      log = logging 0 "Start" ∷ logging 0 "Success" ∷ [];
    })
unfolding dispatch_command keep_alive store
keep_alive_runs = refl

unknown_runs :
    dispatch_command 999 payload small true
    ≡ some (record {
      mem = replicate 4 0;
      result = minus_one;
      log = logging 302 "Unknown Command" ∷ [];
    })
unfolding dispatch_command
unknown_runs = refl

dispatch_command-effect_example :
    dispatch_command 2 payload small true
    ≡ some (record {
      mem = effect 2 payload small;
      result = expected_result 2;
      log = expected_log 2 true;
    })
unfolding reach
dispatch_command-effect_example =
    dispatch_command-effect payload small true (omega arith) 2 (omega arith)
