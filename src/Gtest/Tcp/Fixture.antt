-- ===== src/Gtest/Tcp/Fixture.antt =====
-- The fixture of gtest-tcp-recv-send.cc, `TcpTestManager`, around its two tests.
mod Tests
use communicate_core.Common.{ℕ, ◌≡◌, refl, inl, List, [], ◌∷◌, ◌++◌, Bool, true, Option, none, some}
use communicate_core.Command.Ids.{keep_alive_id, ibit_id, sizeof_rcv_keep_alive, sizeof_rcv_bit}
use communicate_core.Tcp.State.{disconnect}
use communicate_core.Tcp.Send.{gone, waiting, send_check}
use communicate_core.Tcp.Session.{Session, fresh, Reach, here, next, checks}
use communicate_core.Tcp.Session.Ending.{Reach-trans, closed_ends_both}
use communicate_core.Gtest.Tcp.{
  controller_request, keep_alive_expects, ibit_expects, Passes, controller_tests_pass,
}

-- `SetUp`: with a pair of sockets the record is cleared, has one of them as the client's socket, and
-- both threads are started.
unfoldable pub set_up : (sv : Option ℕ) → Option Session
set_up none = none
set_up (some sock) = some (fresh sock)

-- `TearDown`: the test's socket is closed, and both threads are waited for.
pub record TearDown (s t : Session) : Type 0 where
  pub reached : Reach s t
  pub recv_joined : t.receiver ≡ gone
  pub send_joined : t.sender ≡ gone

-- A test of the fixture: its set-up succeeds, the test passes, and its tear-down comes to an end, with
-- the server's socket disconnected once, its slot cleared, and the flag set.
pub record Succeeds (sock : ℕ) (request : Option (List ℕ)) (expects : List ℕ → Bool) : Type 0 where
  pub start : Session
  pub started : set_up (some sock) ≡ some start
  pub test : Passes start request expects
  pub down : Session
  pub torn_down : TearDown test.after down
  pub disconnected :
      down.effects ≡ test.after.effects ++ (disconnect test.after.client.client_sock ∷ [])
  pub cleared : down.client.client_sock ≡ 0
  pub flag : down.client.exit_flag ≡ true

-- The sending thread comes to its wait, and the test goes on as from there.
from_start :
    (sock : ℕ) (request : Option (List ℕ)) (expects : List ℕ → Bool)
    → Passes (record (fresh sock) { sender = waiting }) request expects
    → Passes (fresh sock) request expects
unfolding send_check
from_start sock request expects p = record {
  bytes = p.bytes;
  asked = p.asked;
  after = p.after;
  reached = Reach-trans (next here (checks (fresh sock) refl)) p.reached;
  before = p.before;
  reply = p.reply;
  sent = p.sent;
  holds = p.holds;
  receives_on = p.receives_on;
}

succeeds :
    (sock : ℕ) (request : Option (List ℕ)) (expects : List ℕ → Bool)
    → Passes (fresh sock) request expects
    → Succeeds sock request expects
unfolding set_up
succeeds sock request expects p =
    let (t, reached, receiver, sender, flag, cleared, effects) =
      closed_ends_both p.after p.receives_on in
    record {
      start = fresh sock;
      started = refl;
      test = p;
      down = t;
      torn_down = record { reached = reached; recv_joined = receiver; send_joined = sender };
      disconnected = effects;
      cleared = cleared;
      flag = flag;
    }

-- With any socket both tests can run in their fixture: the threads start, the answer comes and meets
-- the expectations, and closing the connection ends both threads, so that the tear-down returns.
-- Without a pair of sockets the set-up fails.
pub fixture-Succeeds :
    (sock : ℕ)
    → Succeeds sock (controller_request keep_alive_id sizeof_rcv_keep_alive) keep_alive_expects
      × Succeeds sock (controller_request ibit_id sizeof_rcv_bit) ibit_expects
      × (set_up none ≡ none)
unfolding set_up
fixture-Succeeds sock =
    let (keep_alive, ibit) =
      controller_tests_pass (record (fresh sock) { sender = waiting })
        (record { whole = refl; holds = inl refl }) refl refl in
    (
      succeeds sock _ _ (from_start sock _ _ keep_alive),
      succeeds sock _ _ (from_start sock _ _ ibit),
      refl,
    )
