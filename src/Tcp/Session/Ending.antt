-- ===== src/Tcp/Session/Ending.antt =====
-- How both threads of a client end when its connection is closed.
mod Tests
use mathlib.Core.List.{append-nil}
use communicate_core.Common.{◌≡◌, refl, ◌∙◌, [], ◌∷◌, ◌++◌, true, arith}
use communicate_core.Tcp.State.{disconnect}
use communicate_core.Tcp.Receive.{Round, closed, receive_round}
use communicate_core.Tcp.Send.{
  Place, working, waiting, leaving, gone, timed_out, send_check, send_round, set_exit_flag,
}
use communicate_core.Tcp.Session.Defs.{
  Session, arrives, flags, checks, wakes, ends, Reach, here, next, after_round, after_flag,
  after_check, after_wait, after_end,
}

pub Reach-trans : {s t u : Session} → Reach s t → Reach t u → Reach s u
Reach-trans r here = r
Reach-trans r (next before step) = next (Reach-trans r before) step

-- What the end of the sending thread leaves.
record IsEnded (s t : Session) : Type 0 where
  sender : t.sender ≡ gone
  receiver : t.receiver ≡ s.receiver
  flag : t.client.exit_flag ≡ true
  sock : t.client.client_sock ≡ s.client.client_sock
  quiet : t.effects ≡ s.effects

from_leaving : (s : Session) → s.sender ≡ leaving → (t : Session) × Reach s t × IsEnded s t
unfolding set_exit_flag
from_leaving s place = (
  after_end s,
  next here (ends s place),
  record { sender = refl; receiver = refl; flag = refl; sock = refl; quiet = refl },
)

from_working :
    (s : Session)
    → s.sender ≡ working
    → s.client.exit_flag ≡ true
    → (t : Session) × Reach s t × IsEnded s t
unfolding send_check
from_working s place flag =
    let (t, reached, ended) = from_leaving (after_check s) (ground (arith, flag)) in
    (
      t,
      Reach-trans (next here (checks s place)) reached,
      record {
        sender = ended.sender;
        receiver = ended.receiver;
        flag = ended.flag;
        sock = ended.sock;
        quiet = ended.quiet;
      },
    )

from_waiting :
    (s : Session)
    → s.sender ≡ waiting
    → s.client.exit_flag ≡ true
    → (t : Session) × Reach s t × IsEnded s t
unfolding send_round
from_waiting s place flag =
    let (t, reached, ended) = from_working (after_wait s []) refl flag in
    (
      t,
      Reach-trans (next here (wakes s timed_out [] place refl)) reached,
      record {
        sender = ended.sender;
        receiver = ended.receiver;
        flag = ended.flag;
        sock = ended.sock;
        quiet = ended.quiet ∙ append-nil s.effects;
      },
    )

sender_ends :
    (s : Session) (place : Place)
    → s.sender ≡ place
    → s.client.exit_flag ≡ true
    → (t : Session) × Reach s t × IsEnded s t
sender_ends s working e flag = from_working s e flag
sender_ends s waiting e flag = from_waiting s e flag
sender_ends s leaving e flag = from_leaving s e
sender_ends s gone e flag =
    (s, here, record { sender = e; receiver = refl; flag = flag; sock = refl; quiet = refl })

-- When the connection of a client is closed while its receiving thread works, then wherever the
-- sending thread is, there is a way on which both threads end, with the socket disconnected and
-- cleared, the exit flag set, and no message sent on it.
pub closed_ends_both :
    (s : Session)
    → s.receiver ≡ working
    → (t : Session) × Reach s t
      × (t.receiver ≡ gone)
      × (t.sender ≡ gone)
      × (t.client.exit_flag ≡ true)
      × (t.client.client_sock ≡ 0)
      × (t.effects ≡ s.effects ++ (disconnect s.client.client_sock ∷ []))
unfolding receive_round set_exit_flag
closed_ends_both s place =
    let closing : Round = record {
      client = record s.client { client_sock = 0 };
      effects = disconnect s.client.client_sock ∷ [];
      stop = true;
    } in
    let hung_up = after_round s closing in
    let (t, reached, ended) = sender_ends (after_flag hung_up) s.sender refl refl in
    (
      t,
      Reach-trans (next (next here (arrives s closed closing tt place refl)) (flags hung_up refl))
          reached,
      ended.receiver,
      ended.sender,
      ended.flag,
      ended.sock,
      ended.quiet,
    )
