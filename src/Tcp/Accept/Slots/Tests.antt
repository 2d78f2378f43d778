-- ===== src/Tcp/Accept/Slots/Tests.antt =====
-- New connections at a server with two slots in use.
use communicate_core.Common.{ℕ, ◌≡◌, refl, [], ◌∷◌, true, some, arith, length, replicate}
use communicate_core.Tcp.State.{ClientInfo}
use communicate_core.Tcp.Accept.Defs.{Server, add_client, server_round}
use communicate_core.Tcp.Accept.Slots.{IsDistinct, served, server_round-IsDistinct}

abbrev slot : ℕ → ClientInfo
slot sock = record {
  client_sock = sock;
  exit_flag = true;
  shared = record { bytes = replicate 1024 0; data_size = 0; cmd = 0 };
}

abbrev two_served : Server
two_served = record {
  server_sock = 3;
  group = slot 4 ∷ slot 5 ∷ slot 0 ∷ slot 0 ∷ slot 0 ∷ [];
  started = 0 ∷ 1 ∷ [];
}

abbrev three_served : Server
three_served = record {
  server_sock = 3;
  group = slot 4 ∷ slot 5 ∷ served 7 (slot 0) ∷ slot 0 ∷ slot 0 ∷ [];
  started = 0 ∷ 1 ∷ 2 ∷ [];
}

third_accepted : server_round two_served true (some 7) ≡ some three_served
unfolding server_round add_client
third_accepted = refl

server_round-IsDistinct_example :
    (length three_served.group ≡ length two_served.group) × IsDistinct three_served.group
server_round-IsDistinct_example =
    server_round-IsDistinct two_served three_served true (some 7) (λ sock e. (ground arith))
      (omega arith) third_accepted
