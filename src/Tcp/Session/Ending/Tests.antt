-- ===== src/Tcp/Session/Ending/Tests.antt =====
-- A new client that closes its connection at once.
use communicate_core.Common.{◌≡◌, refl, [], ◌∷◌, ◌++◌, true}
use communicate_core.Tcp.State.{disconnect}
use communicate_core.Tcp.Send.{gone}
use communicate_core.Tcp.Session.Defs.{Session, fresh, Reach}
use communicate_core.Tcp.Session.Ending.{closed_ends_both}

closed_ends_both_example :
    (t : Session) × Reach (fresh 5) t
    × (t.receiver ≡ gone)
    × (t.sender ≡ gone)
    × (t.client.exit_flag ≡ true)
    × (t.client.client_sock ≡ 0)
    × (t.effects ≡ [] ++ (disconnect 5 ∷ []))
closed_ends_both_example = closed_ends_both (fresh 5) refl
