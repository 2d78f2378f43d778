-- ===== src/Tcp/Server/Threads.antt =====
-- How many receiving threads of a slot are before the end of their loop.
use mathlib.Core.Option.{some-injective}
use communicate_core.Common.{
  ℕ, zero, suc, ◌+◌, ◌<◌, ◌≡◌, inl, inr, refl, ap, List, [], ◌∷◌, ◌++◌, some, arith, ◌==◌,
  Bool-cases, if◌then◌else◌, set, get_elem?,
}
use communicate_core.Tcp.State.{ClientInfo}
use communicate_core.Tcp.Send.{working}
use communicate_core.Tcp.Accept.{add_client, started_slot}
use communicate_core.Tcp.Server.Defs.{Role, receiver, sender, Phase, starting, at, Thread, spawned}

-- 1 for a receiving thread that may still take messages.
abbrev pub is_active : Role → Phase → ℕ
is_active receiver starting = 1
is_active receiver (at working) = 1
is_active receiver (at p) = 0
is_active sender phase = 0

abbrev pub active_for : ℕ → Thread → ℕ
active_for i th = if th.slot == i then is_active th.role th.phase else 0

abbrev pub active : ℕ → List Thread → ℕ
active i [] = 0
active i (th ∷ ths) = active_for i th + active i ths

-- 1 for a slot that has a socket.
abbrev pub taken_by : ClientInfo → ℕ
taken_by c = if c.client_sock == 0 then 0 else 1

abbrev pub taken_at : List ClientInfo → ℕ → ℕ
taken_at [] i = 0
taken_at (c ∷ cs) zero = taken_by c
taken_at (c ∷ cs) (suc i) = taken_at cs i

pub active-append : (i : ℕ) (xs ys : List Thread) → active i (xs ++ ys) ≡ active i xs + active i ys
active-append i [] ys = omega arith
active-append i (x ∷ xs) ys = omega (arith, active-append i xs ys)

-- The count without a thread.
pub active_others :
    (i : ℕ) (ths : List Thread) (k : ℕ) (old : Thread)
    → get_elem? ths k ≡ some old
    → (n : ℕ) × (active i ths ≡ n + active_for i old)
      × ((new : Thread) → active i (set ths k new) ≡ n + active_for i new)
active_others i [] k old e = absurd (cc e)
active_others i (x ∷ xs) zero old e =
    (active i xs, rw (some-injective x old e) (omega arith), λ new. omega arith)
active_others i (x ∷ xs) (suc k) old e =
    let (n, before, after) = active_others i xs k old e in
    (active_for i x + n, omega (arith, before), λ new. omega (arith, after new))

pub taken_at-get_elem :
    (cs : List ClientInfo) (i : ℕ) (c : ClientInfo)
    → get_elem? cs i ≡ some c
    → taken_at cs i ≡ taken_by c
taken_at-get_elem [] i c e = absurd (cc e)
taken_at-get_elem (x ∷ xs) zero c e = ap taken_by (some-injective x c e)
taken_at-get_elem (x ∷ xs) (suc i) c e = taken_at-get_elem xs i c e

pub taken_at-set_self :
    (cs : List ClientInfo) (i : ℕ) (c new : ClientInfo)
    → get_elem? cs i ≡ some c
    → taken_at (set cs i new) i ≡ taken_by new
taken_at-set_self [] i c new e = absurd (cc e)
taken_at-set_self (x ∷ xs) zero c new e = refl
taken_at-set_self (x ∷ xs) (suc i) c new e = taken_at-set_self xs i c new e

pub taken_at-set_ne :
    (cs : List ClientInfo) (i j : ℕ) (new : ClientInfo)
    → ¬ (i ≡ j)
    → taken_at (set cs i new) j ≡ taken_at cs j
taken_at-set_ne [] i j new h = refl
taken_at-set_ne (x ∷ xs) zero zero new h = absurd (h refl)
taken_at-set_ne (x ∷ xs) zero (suc j) new h = refl
taken_at-set_ne (x ∷ xs) (suc i) zero new h = refl
taken_at-set_ne (x ∷ xs) (suc i) (suc j) new h = taken_at-set_ne xs i j new (λ e. h (ap suc e))

new_below :
    (j : ℕ) (cs : List ClientInfo) (sock i : ℕ)
    → i < j
    → active i (spawned (started_slot (add_client j cs sock).slot)) ≡ 0
unfolding add_client spawned
new_below j [] sock i h = refl
new_below j (c ∷ cs) sock i h = elim (Bool-cases (c.client_sock == 0)) [
  | inl free ↦ rw free (ground arith)
  | inr busy ↦ rw busy (new_below (j + 1) cs sock i (omega arith))
]

-- A new connection: the slot's new receiving thread comes with its socket.
pub add_client-active :
    (j : ℕ) (cs : List ClientInfo) (sock i : ℕ)
    → 0 < sock
    → taken_at (add_client j cs sock).group i
      ≡ taken_at cs i + active (j + i) (spawned (started_slot (add_client j cs sock).slot))
unfolding add_client spawned
add_client-active j [] sock i h = omega arith
add_client-active j (c ∷ cs) sock zero h = elim (Bool-cases (c.client_sock == 0)) [
  | inl free ↦ rw free (ground (arith, h))
  | inr busy ↦ rw busy (ground (arith, new_below (j + 1) cs sock j (omega arith)))
]
add_client-active j (c ∷ cs) sock (suc i) h = elim (Bool-cases (c.client_sock == 0)) [
  | inl free ↦ rw free (ground arith)
  | inr busy ↦ rw busy (ground (arith, add_client-active (j + 1) cs sock i h))
]
