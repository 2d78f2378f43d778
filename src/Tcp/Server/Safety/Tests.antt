-- ===== src/Tcp/Server/Safety/Tests.antt =====
-- A client connects, and its receiving thread starts.
use communicate_core.Common.{refl, [], ◌∷◌, true, some, replicate, arith}
use communicate_core.Tcp.Accept.{Server, add_client, server_round}
use communicate_core.Tcp.Accept.Slots.{served}
use communicate_core.Tcp.Server.Defs.{
  ready, receiver, starting, fd_isset, left_set, main_iteration, spawned, empty_slot, Process,
  start, after_main, after_start, Moves, iterates, starts, here, next,
}
use communicate_core.Tcp.Server.Safety.{IsServerSafe, server_is_safe}

abbrev one_client : Server
one_client = record {
  server_sock = 3;
  group = served 4 empty_slot ∷ replicate 4 empty_slot;
  started = 0 ∷ [];
}

abbrev pub one_started : Process
one_started =
    after_start (after_main (start 3) one_client) 0
      (record { slot = 0; role = receiver; phase = starting }) true

pub one_started_reached : Moves (start 3) one_started
unfolding main_iteration left_set fd_isset server_round add_client spawned
one_started_reached =
    next (next here (iterates (start 3) (ready (3 ∷ [])) (some 4) one_client (omega arith) refl))
      (starts (after_main (start 3) one_client) 0 _ true refl refl)

server_is_safe_example : IsServerSafe one_started
server_is_safe_example = server_is_safe 3 one_started one_started_reached
