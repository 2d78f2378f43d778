-- ===== src/Tcp/Session/Sending/Tests.antt =====
-- A wake with an empty mailbox, and then a set flag.
use communicate_core.Common.{◌≡◌, refl, inl, List, [], ◌∷◌, true, false, some, if◌then◌else◌}
use communicate_core.Tcp.State.{ClientInfo}
use communicate_core.Tcp.Send.{timed_out, woken}
use communicate_core.Tcp.Session.Defs.{fresh}
use communicate_core.Tcp.Session.Effects.{AllSent}
use communicate_core.Tcp.Session.Mailbox.{IsReply, HoldsAnswer}
use communicate_core.Tcp.Session.Sending.{Turn, send_thread, replies, is_flagged, send_thread_lem}

abbrev client : ClientInfo
client = (fresh 5).client

abbrev turns : List Turn
turns =
    record { tested = client; ret = woken; behind = client }
    ∷ record { tested = record client { exit_flag = true }; ret = timed_out; behind = client }
    ∷ []

client_holds : HoldsAnswer client.shared
client_holds = record { whole = refl; holds = inl refl }

send_thread_lem_example :
    (send_thread true turns client
      ≡ some (
        record { effects = replies turns; stop = is_flagged turns },
        record client { exit_flag = if is_flagged turns then true else client.exit_flag },
      ))
    × AllSent IsReply (replies turns)
    × (send_thread false turns client ≡ some (record { effects = []; stop = true }, client))
send_thread_lem_example = send_thread_lem turns client (client_holds, (client_holds, tt))
