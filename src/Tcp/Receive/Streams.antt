-- ===== src/Tcp/Receive/Streams.antt =====
-- `receiveThread` over everything that arrives on a connection.
mod Tests
use native.Mathlib.Decide.{dec_lt, ℕ_discrete}
use communicate_core.Common.{
  ℕ, ◌≤◌, ◌<◌, ◌≡◌, inl, inr, refl, ◌∙◌, List, [], ◌∷◌, ◌++◌, Bool, Bool-cases, true, false, some,
  arith, length, if◌then◌else◌, short_to_int,
}
use communicate_core.Memory.{IsBytes}
use communicate_core.Frame.Check.Verdict.{stated_size}
use communicate_core.Tcp.State.{buffer_size, ClientInfo}
use communicate_core.Tcp.Receive.Defs.{
  Received, closed, failed, message, Round, idle_round, receive_round, receive_loop, receive_thread,
}
use communicate_core.Tcp.Receive.Rounds.{
  received, command_of, IsOverrunning, receive_round-unmatched, receive_round-IsAnswered,
}

-- An arrival that is no command whose handler overruns its answer.
abbrev pub IsTame : Received → Type 0
IsTame closed = Unit {0}
IsTame failed = Unit {0}
IsTame (message bytes) =
    IsBytes bytes
    × (length bytes ≤ buffer_size)
    × (0 < length bytes)
    × (¬ IsOverrunning (short_to_int (command_of bytes)))

abbrev pub AllTame : List Received → Type 0
AllTame [] = Unit {0}
AllTame (r ∷ rs) = IsTame r × AllTame rs

abbrev pub is_closed : Received → Bool
is_closed closed = true
is_closed r = false

-- The connection is closed at some point.
abbrev pub has_closed : List Received → Bool
has_closed [] = false
has_closed (r ∷ rs) = if is_closed r then true else has_closed rs

record IsTotal (client : ClientInfo) (r : Received) (round : Round) : Type 0 where
  stops : round.stop ≡ is_closed r
  same_flag : round.client.exit_flag ≡ client.exit_flag

idle_round-IsTotal :
    (client : ClientInfo) (bytes : List ℕ) → IsTotal client (message bytes) (idle_round client)
idle_round-IsTotal client bytes = record { stops = refl; same_flag = refl }

message-IsTotal :
    (client : ClientInfo) (bytes : List ℕ)
    → IsTame (message bytes)
    → (round : Round) × (receive_round client (message bytes) ≡ some round)
      × IsTotal client (message bytes) round
message-IsTotal client bytes tame = elim (dec_lt (length bytes) 11) [
  | yes short ↦ (
    idle_round client,
    receive_round-unmatched client bytes tame.0 tame.1 tame.2 (inl short),
    idle_round-IsTotal client bytes,
  )
  | no long ↦ elim (ℕ_discrete (stated_size (received bytes)) (length bytes)) [
    | no differ ↦ (
      idle_round client,
      receive_round-unmatched client bytes tame.0 tame.1 tame.2 (inr differ),
      idle_round-IsTotal client bytes,
    )
    | yes same ↦
        let (round, done, answered, checked) =
          receive_round-IsAnswered client bytes tame.0 tame.1 (omega arith) same tame.3 in
        (round, done, record { stops = answered.goes_on; same_flag = answered.same_flag })
  ]
]

receive_round-IsTotal :
    (client : ClientInfo) (r : Received)
    → IsTame r
    → (round : Round) × (receive_round client r ≡ some round) × IsTotal client r round
unfolding receive_round
receive_round-IsTotal client closed tame = (_, refl, record { stops = refl; same_flag = refl })
receive_round-IsTotal client failed tame = (_, refl, record { stops = refl; same_flag = refl })
receive_round-IsTotal client (message bytes) tame = message-IsTotal client bytes tame

receive_loop-total :
    (client : ClientInfo) (events : List Received)
    → AllTame events
    → (last : Round) × (receive_loop client events ≡ some last)
      × (last.stop ≡ has_closed events)
      × (last.client.exit_flag ≡ client.exit_flag)
unfolding receive_loop
receive_loop-total client [] tame = (idle_round client, refl, refl, refl)
receive_loop-total client (r ∷ rs) tame =
    let (round, done, total) = receive_round-IsTotal client r tame.0 in
    let (rest, more, stops, flag) = receive_loop-total round.client rs tame.1 in
    elim (Bool-cases round.stop) [
      | inl stopped ↦
          (round, rw (done, stopped) refl, ground (arith, stopped, total.stops), total.same_flag)
      | inr goes_on ↦ (
        record rest { effects = round.effects ++ rest.effects },
        rw (done, goes_on, more) refl,
        ground (arith, goes_on, total.stops, stops),
        flag ∙ total.same_flag,
      )
    ]

-- Over any arrivals of which none is a command that overruns its answer, the thread of a connected
-- client does not fault. It leaves its loop exactly if the connection is closed at some point, and
-- the exit flag is then set, and otherwise as it was.
pub receive_thread-total :
    (client : ClientInfo) (events : List Received)
    → AllTame events
    → (last : Round) × (receive_thread client true events ≡ some last)
      × (last.stop ≡ has_closed events)
      × (last.client.exit_flag ≡ (if has_closed events then true else client.exit_flag))
unfolding receive_thread
receive_thread-total client events tame =
    let (rest, done, stops, flag) = receive_loop-total client events tame in
    elim (Bool-cases rest.stop) [
      | inl stopped ↦ (
        record rest { client = record rest.client { exit_flag = true } },
        rw (done, stopped) refl,
        stops,
        ground (arith, stopped, stops),
      )
      | inr goes_on ↦ (rest, rw (done, goes_on) refl, stops, ground (arith, goes_on, stops, flag))
    ]
