-- ===== src/Tcp/Receive/Streams/Tests.antt =====
-- A keep-alive, an error and the end of a connection.
use communicate_core.Common.{◌≡◌, List, [], ◌∷◌, true, some, arith, if◌then◌else◌}
use communicate_core.Memory.{peek}
use communicate_core.Frame.Samples.{keep_alive_request, keep_alive_request-IsBytes}
use communicate_core.Tcp.Receive.Defs.{Received, closed, failed, message, Round, receive_thread}
use communicate_core.Tcp.Receive.Rounds.Tests.{client}
use communicate_core.Tcp.Receive.Streams.{AllTame, has_closed, receive_thread-total}

abbrev events : List Received
events = message keep_alive_request ∷ failed ∷ closed ∷ []

events_tame : AllTame events
unfolding peek
events_tame = ((keep_alive_request-IsBytes, omega arith, omega arith, omega arith), (tt, (tt, tt)))

receive_thread-total_example :
    (last : Round) × (receive_thread client true events ≡ some last)
    × (last.stop ≡ has_closed events)
    × (last.client.exit_flag ≡ (if has_closed events then true else client.exit_flag))
receive_thread-total_example = receive_thread-total client events events_tame
