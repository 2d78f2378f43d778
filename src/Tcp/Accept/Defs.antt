-- ===== src/Tcp/Accept/Defs.antt =====
-- An iteration of the loop of process1's `main`: what `select` watches, and what becomes of a new
-- connection. The results of `select` and `accept` are arguments.
use communicate_core.Common.{
  ℕ, ◌+◌, List, [], ◌∷◌, ◌++◌, Bool, true, false, Option, none, some, ◌==◌, ltb, if◌then◌else◌,
}
use communicate_core.Tcp.State.{ClientInfo}

abbrev pub max_clients : ℕ
max_clients = 5

-- `FD_SET` of the sockets, and `iMaxSock`.
pub record Watched : Type 0 where
  pub set : List ℕ
  pub max_sock : ℕ

unfoldable pub watch_client : Watched → ClientInfo → Watched
watch_client w c = record {
  set = if ltb 0 c.client_sock then c.client_sock ∷ w.set else w.set;
  max_sock = if ltb w.max_sock c.client_sock then c.client_sock else w.max_sock;
}

unfoldable pub watch_clients : Watched → List ClientInfo → Watched
watch_clients w [] = w
watch_clients w (c ∷ cs) = watch_clients (watch_client w c) cs

unfoldable pub watch : ℕ → List ClientInfo → Watched
watch server_sock group =
    watch_clients (record { set = server_sock ∷ []; max_sock = server_sock }) group

-- The group, and the slot whose threads are started, if there is one.
pub record Added : Type 0 where
  pub group : List ClientInfo
  pub slot : Option ℕ

-- The loop over slots from `i` on. A slot that is used again keeps its old mailbox.
unfoldable pub add_client : ℕ → List ClientInfo → ℕ → Added
add_client i [] sock = record { group = []; slot = none }
add_client i (c ∷ cs) sock =
    let rest = add_client (i + 1) cs sock in
    if c.client_sock == 0
    then record { group = record c { client_sock = sock; exit_flag = false } ∷ cs; slot = some i }
    else record { group = c ∷ rest.group; slot = rest.slot }

pub record Server : Type 0 where
  pub server_sock : ℕ
  pub group : List ClientInfo
  pub started : List ℕ  -- the slots whose two threads were started, in order

abbrev pub started_slot : Option ℕ → List ℕ
started_slot none = []
started_slot (some i) = i ∷ []

-- An iteration, for the server's bit in the set that `select` leaves and the return of `accept`,
-- none for an error, at which the program exits.
unfoldable pub server_round : Server → Bool → Option ℕ → Option Server
server_round s false accepted = some s
server_round s true none = none
server_round s true (some sock) =
    let added = add_client 0 s.group sock in
    some (record s { group = added.group; started = s.started ++ started_slot added.slot })
