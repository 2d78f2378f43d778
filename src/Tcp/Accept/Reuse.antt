-- ===== src/Tcp/Accept/Reuse.antt =====
-- A slot that is given to a new client while a thread of its last one is still to set the flag.
use communicate_core.Common.{ℕ, ◌≡◌, refl, List, [], ◌∷◌, ◌++◌, true, some, length}
use communicate_core.Tcp.State.{ClientInfo}
use communicate_core.Tcp.Receive.{Round, closed, receive_round}
use communicate_core.Tcp.Send.{waiting, leaving, send_check, set_exit_flag}
use communicate_core.Tcp.Accept.Defs.{Server, server_round}
use communicate_core.Tcp.Accept.Slots.{AllBusy, served, server_round-first}

-- A client whose receiving thread has left its loop, and not yet set the flag.
abbrev pub hung_up : ClientInfo → ClientInfo
hung_up c = record c { client_sock = 0 }

-- The receiving thread of a client whose connection is closed clears the socket before it sets the
-- exit flag. A connection that the server accepts between the two is given that slot, if it is the
-- first free one, and its sending thread would wait for an answer; when the old thread then sets the
-- flag, the sending thread of the new client leaves its loop at its next test of it.
pub reused_slot_exits :
    (s : Server) (busy : List ClientInfo) (c : ClientInfo) (rest : List ClientInfo) (sock : ℕ)
    → s.group ≡ busy ++ (hung_up c ∷ rest)
    → AllBusy busy
    → (closing : Round) × (receive_round c closed ≡ some closing)
      × (closing.client ≡ hung_up c)
      × (server_round s true (some sock)
          ≡ some (record s {
            group = busy ++ (served sock (hung_up c) ∷ rest);
            started = s.started ++ (length busy ∷ []);
          }))
      × (send_check (served sock (hung_up c)) ≡ waiting)
      × (send_check (set_exit_flag (served sock (hung_up c))) ≡ leaving)
unfolding receive_round send_check set_exit_flag
reused_slot_exits s busy c rest sock e b =
    (_, refl, refl, server_round-first s busy (hung_up c) rest sock e b refl, refl, refl)
