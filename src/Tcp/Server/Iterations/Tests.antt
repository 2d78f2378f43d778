-- ===== src/Tcp/Server/Iterations/Tests.antt =====
-- An iteration behind an interrupted `select`.
use communicate_core.Common.{◌≡◌, ◌⊎◌, [], ◌∷◌, true, some}
use communicate_core.Tcp.Accept.{Server, server_round}
use communicate_core.Tcp.Accept.Slots.{served}
use communicate_core.Tcp.Server.Defs.{failed, main_iteration, empty_slot}
use communicate_core.Tcp.Server.Iterations.{IsConnecting, main_iteration_lem}

abbrev server : Server
server = record { server_sock = 3; group = served 4 empty_slot ∷ empty_slot ∷ []; started = 0 ∷ [] }

main_iteration_lem_example :
    (IsConnecting server (failed true)
      × (main_iteration server (failed true) (some 7) ≡ server_round server true (some 7)))
    ⊎ ((¬ IsConnecting server (failed true))
        × (main_iteration server (failed true) (some 7) ≡ some server))
main_iteration_lem_example = main_iteration_lem server (some 7) (failed true)
