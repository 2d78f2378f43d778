-- ===== src/Tcp/Accept/Slots.antt =====
-- Which slot a new connection takes.
mod Tests
use mathlib.Core.Option.{some-injective}
use mathlib.Core.List.{append-nil}
use communicate_core.Common.{
  ℕ, ◌+◌, ◌≡◌, ◌≢◌, ◌⊎◌, inl, inr, refl, sym, Bool-cases, List, [], ◌∷◌, ◌++◌, Bool, true, false,
  Option, none, some, arith, length, ◌==◌,
}
use communicate_core.Tcp.State.{ClientInfo}
use communicate_core.Tcp.Accept.Defs.{add_client, Server, server_round}

abbrev pub AllBusy : List ClientInfo → Type 0
AllBusy [] = Unit {0}
AllBusy (c ∷ cs) = (c.client_sock ≢ 0) × AllBusy cs

-- No slot has the socket.
abbrev pub IsUnused : ℕ → List ClientInfo → Type 0
IsUnused sock [] = Unit {0}
IsUnused sock (c ∷ cs) = (c.client_sock ≢ sock) × IsUnused sock cs

-- No socket is in two slots.
abbrev pub IsDistinct : List ClientInfo → Type 0
IsDistinct [] = Unit {0}
IsDistinct (c ∷ cs) = ((c.client_sock ≡ 0) ⊎ IsUnused c.client_sock cs) × IsDistinct cs

-- The slot of a served client.
abbrev pub served : ℕ → ClientInfo → ClientInfo
served sock c = record c { client_sock = sock; exit_flag = false }

add_client-busy :
    (i : ℕ) (cs : List ClientInfo) (sock : ℕ)
    → AllBusy cs
    → add_client i cs sock ≡ record { group = cs; slot = none }
unfolding add_client
add_client-busy i [] sock b = refl
add_client-busy i (c ∷ cs) sock b = ground (arith, b.0, add_client-busy (i + 1) cs sock b.1)

add_client-first :
    (i : ℕ) (busy : List ClientInfo) (c : ClientInfo) (rest : List ClientInfo) (sock : ℕ)
    → AllBusy busy
    → c.client_sock ≡ 0
    → add_client i (busy ++ (c ∷ rest)) sock
      ≡ record { group = busy ++ (served sock c ∷ rest); slot = some (length busy + i) }
unfolding add_client
add_client-first i [] c rest sock b free = ground (arith, free)
add_client-first i (x ∷ busy) c rest sock b free =
    ground (arith, b.0, add_client-first (i + 1) busy c rest sock b.1 free)

-- A new connection goes to the first slot that has no socket: that slot gets the socket and a clear
-- exit flag, keeps what its mailbox held, and its two threads are started; no other slot changes.
pub server_round-first :
    (s : Server) (busy : List ClientInfo) (c : ClientInfo) (rest : List ClientInfo) (sock : ℕ)
    → s.group ≡ busy ++ (c ∷ rest)
    → AllBusy busy
    → c.client_sock ≡ 0
    → server_round s true (some sock)
      ≡ some (record s {
        group = busy ++ (served sock c ∷ rest);
        started = s.started ++ (length busy ∷ []);
      })
unfolding server_round
server_round-first s busy c rest sock e b free =
    ground (arith, e, add_client-first 0 busy c rest sock b free)

-- If every slot has a socket, a new connection changes nothing: it is in no slot, no thread serves
-- it, and it is not closed.
pub server_round-full :
    (s : Server) (sock : ℕ) → AllBusy s.group → server_round s true (some sock) ≡ some s
unfolding server_round
server_round-full s sock b = ground (arith, add_client-busy 0 s.group sock b, append-nil s.started)

add_client-IsUnused :
    (i : ℕ) (cs : List ClientInfo) (sock other : ℕ)
    → sock ≢ other
    → IsUnused other cs
    → IsUnused other (add_client i cs sock).group
unfolding add_client
add_client-IsUnused i [] sock other d u = tt
add_client-IsUnused i (c ∷ cs) sock other d u =
    ground (arith, u.0, u.1, d, add_client-IsUnused (i + 1) cs sock other d u.1)

length-add_client :
    (i : ℕ) (cs : List ClientInfo) (sock : ℕ) → length (add_client i cs sock).group ≡ length cs
unfolding add_client
length-add_client i [] sock = refl
length-add_client i (c ∷ cs) sock = ground (arith, length-add_client (i + 1) cs sock)

add_client-IsDistinct :
    (i : ℕ) (cs : List ClientInfo) (sock : ℕ)
    → IsUnused sock cs
    → IsDistinct cs
    → IsDistinct (add_client i cs sock).group
unfolding add_client
add_client-IsDistinct i [] sock u d = tt
add_client-IsDistinct i (c ∷ cs) sock u d = elim (Bool-cases (c.client_sock == 0)) [
  | inl free ↦ rw free (inr u.1, d.1)
  | inr busy ↦ rw busy (
    elim d.0 [
      | inl free ↦ absurd (ground (arith, free, busy))
      | inr unused ↦
          inr (add_client-IsUnused (i + 1) cs sock c.client_sock (λ e. u.0 (sym e)) unused)
    ],
    add_client-IsDistinct (i + 1) cs sock u.1 d.1,
  )
]

-- An iteration that goes on, whatever the server's bit and the new socket are, leaves as many slots,
-- and no socket in two of them, if the new socket was in none.
pub server_round-IsDistinct :
    (s next : Server) (is_ready : Bool) (accepted : Option ℕ)
    → ((sock : ℕ) → accepted ≡ some sock → IsUnused sock s.group)
    → IsDistinct s.group
    → server_round s is_ready accepted ≡ some next
    → (length next.group ≡ length s.group) × IsDistinct next.group
unfolding server_round
server_round-IsDistinct s next false accepted u d e = rw (sym (some-injective s next e)) (refl, d)
server_round-IsDistinct s next true none u d e = absurd (cc e)
server_round-IsDistinct s next true (some sock) u d e =
    rw (sym (some-injective _ next e))
      (length-add_client 0 s.group sock, add_client-IsDistinct 0 s.group sock (u sock refl) d)
