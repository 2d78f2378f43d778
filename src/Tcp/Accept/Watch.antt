-- ===== src/Tcp/Accept/Watch.antt =====
-- What `select` waits for.
use communicate_core.Common.{ℕ, ◌≤◌, ◌<◌, ◌≡◌, ◌⊎◌, ◌↔◌, List, [], ◌∷◌, arith}
use communicate_core.Tcp.State.{ClientInfo}
use communicate_core.Tcp.Accept.Defs.{Watched, watch_client, watch_clients, watch}

abbrev pub Has : ℕ → List ℕ → Type 0
Has x [] = ⊥
Has x (y ∷ ys) = (x ≡ y) ⊎ Has x ys

-- A connected client has the socket.
abbrev pub HasClient : ℕ → List ClientInfo → Type 0
HasClient x [] = ⊥
HasClient x (c ∷ cs) = ((x ≡ c.client_sock) × (0 < x)) ⊎ HasClient x cs

Has-watch_client :
    (w : Watched) (c : ClientInfo) (x : ℕ)
    → Has x (watch_client w c).set ↔ (Has x w.set ⊎ ((x ≡ c.client_sock) × (0 < x)))
unfolding watch_client
Has-watch_client w c x = ground arith

Has-watch_clients :
    (w : Watched) (cs : List ClientInfo) (x : ℕ)
    → Has x (watch_clients w cs).set ↔ (Has x w.set ⊎ HasClient x cs)
unfolding watch_clients
Has-watch_clients w [] x = ground arith
Has-watch_clients w (c ∷ cs) x =
    ground (arith, Has-watch_client w c x, Has-watch_clients (watch_client w c) cs x)

-- The maximum grows, and covers the clients that were added.
watch_clients-grows :
    (w : Watched) (cs : List ClientInfo) (x : ℕ)
    → (w.max_sock ≤ (watch_clients w cs).max_sock)
      × (HasClient x cs → x ≤ (watch_clients w cs).max_sock)
unfolding watch_clients watch_client
watch_clients-grows w [] x = ground arith
watch_clients-grows w (c ∷ cs) x = ground (arith, watch_clients-grows (watch_client w c) cs x)

-- `select` waits for exactly the server's socket and those of the connected clients, and none of
-- them is above the maximum that its first argument is made of.
pub watch_lem :
    (server_sock : ℕ) (group : List ClientInfo) (x : ℕ)
    → (Has x (watch server_sock group).set ↔ ((x ≡ server_sock) ⊎ HasClient x group))
      × (Has x (watch server_sock group).set → x ≤ (watch server_sock group).max_sock)
unfolding watch
watch_lem server_sock group x = ground (
  arith,
  Has-watch_clients (record { set = server_sock ∷ []; max_sock = server_sock }) group x,
  watch_clients-grows (record { set = server_sock ∷ []; max_sock = server_sock }) group x,
)
