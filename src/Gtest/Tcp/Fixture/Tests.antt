-- ===== src/Gtest/Tcp/Fixture/Tests.antt =====
-- The fixture with a socket.
use communicate_core.Common.{◌≡◌, none}
use communicate_core.Command.Ids.{keep_alive_id, ibit_id, sizeof_rcv_keep_alive, sizeof_rcv_bit}
use communicate_core.Gtest.Tcp.{controller_request, keep_alive_expects, ibit_expects}
use communicate_core.Gtest.Tcp.Fixture.{set_up, Succeeds, fixture-Succeeds}

fixture-Succeeds_example :
    Succeeds 7 (controller_request keep_alive_id sizeof_rcv_keep_alive) keep_alive_expects
    × Succeeds 7 (controller_request ibit_id sizeof_rcv_bit) ibit_expects
    × (set_up none ≡ none)
fixture-Succeeds_example = fixture-Succeeds 7
