-- ===== src/Tcp/Session/Mailbox.antt =====
-- What the mailbox of a client holds, behind every round of the receiving thread.
use mathlib.Core.Option.{some-injective}
use native.Mathlib.Decide.{dec_lt, ℕ_discrete}
use communicate_core.Common.{
  ℕ, zero, suc, ◌≤◌, ◌<◌, ◌≡◌, ◌⊎◌, inl, inr, refl, sym, ◌∙◌, List, [], ◌∷◌, true, some, arith,
  length, length-replicate, length-take, take, replicate, short_to_int,
}
use communicate_core.Memory.{
  IsBytes, byte_at, peek, peek_cong, copy_bytes, copied, copy_in_range, length-copied,
  copied_inside,
}
use communicate_core.Command.{get_send_cmd_size-le}
use communicate_core.Frame.Layout.{ctrl_pc_id, my_tcp_id, frame_size}
use communicate_core.Frame.Spec.{IsFrame, IsFrame-cong}
use communicate_core.Frame.Check.Verdict.{stated_size}
use communicate_core.Frame.Build.Outcome.{answer_size}
use communicate_core.Tcp.State.{buffer_size, ClientInfo, SharedData, Effect}
use communicate_core.Tcp.Receive.{
  Received, closed, failed, message, Round, idle_round, receive_round,
}
use communicate_core.Tcp.Receive.Answers.{IsAnswered}
use communicate_core.Tcp.Receive.Rounds.{
  received, command_of, IsOverrunning, receive_round-unmatched, receive_round-IsAnswered,
  receive_round-fault_iff,
}
use communicate_core.Tcp.Send.{woken, send_round}
use communicate_core.Tcp.Session.Defs.{IsArrival}
use communicate_core.Tcp.Session.Effects.{count_sends, count_sends-append, count_sends-map_log}

-- The bytes start with the answer to `cmd` for the controller.
pub record IsAnswer (cmd : ℕ) (bytes : List ℕ) : Type 0 where
  pub frame : IsFrame ctrl_pc_id (answer_size cmd) bytes
  pub from : byte_at bytes 6 ≡ my_tcp_id
  pub command : peek 2 bytes 9 ≡ cmd

-- The mailbox is empty, or holds an answer of the size that it states.
pub record HoldsAnswer (shared : SharedData) : Type 0 where
  pub whole : length shared.bytes ≡ buffer_size
  pub holds :
      (shared.data_size ≡ 0)
      ⊎ ((cmd : ℕ) × (shared.data_size ≡ frame_size (answer_size cmd)) × IsAnswer cmd shared.bytes)

-- A whole message: nothing, or an answer and nothing behind it.
abbrev pub IsReply : List ℕ → Type 0
IsReply bytes =
    (bytes ≡ []) ⊎ ((cmd : ℕ) × (length bytes ≡ frame_size (answer_size cmd)) × IsAnswer cmd bytes)

-- What a round keeps.
pub record IsKept (client : ClientInfo) (round : Round) : Type 0 where
  pub mailbox : HoldsAnswer round.client.shared
  pub silent : count_sends round.effects ≡ 0
  pub same_flag : round.client.exit_flag ≡ client.exit_flag
  pub still_bytes : IsBytes client.shared.bytes → IsBytes round.client.shared.bytes
  pub sock : (round.stop ≡ true) ⊎ (round.client.client_sock ≡ client.client_sock)

IsAnswered-IsKept :
    (client : ClientInfo) (cmd : ℕ) (buffer : List ℕ) (round : Round)
    → IsAnswered client cmd buffer round
    → IsKept client round
IsAnswered-IsKept client cmd buffer round a = record {
  mailbox = record {
    whole = a.whole;
    holds = inr (cmd, a.size, record { frame = a.frame; from = a.from; command = a.command });
  };
  silent = grind (arith, count_sends-append, count_sends-map_log, a.effects);
  same_flag = a.same_flag;
  still_bytes = λ b. a.are_bytes;
  sock = inr a.same_sock;
}

idle_round-IsKept :
    (client : ClientInfo) → HoldsAnswer client.shared → IsKept client (idle_round client)
idle_round-IsKept client h = record {
  mailbox = h;
  silent = refl;
  same_flag = refl;
  still_bytes = λ b. b;
  sock = inr refl;
}

is_overrunning : (id : ℕ) → IsOverrunning id ⊎ (¬ IsOverrunning id)
is_overrunning id = omega arith

message-IsKept :
    (client : ClientInfo) (bytes : List ℕ) (round : Round)
    → IsArrival (message bytes)
    → HoldsAnswer client.shared
    → receive_round client (message bytes) ≡ some round
    → IsKept client round
message-IsKept client bytes round arrival h e = elim (dec_lt (length bytes) 11) [
  | yes short ↦
      same_round (idle_round client)
        (receive_round-unmatched client bytes arrival.0 arrival.1 arrival.2 (inl short))
        (idle_round-IsKept client h)
  | no long ↦ elim (ℕ_discrete (stated_size (received bytes)) (length bytes)) [
    | no differ ↦
        same_round (idle_round client)
          (receive_round-unmatched client bytes arrival.0 arrival.1 arrival.2 (inr differ))
          (idle_round-IsKept client h)
    | yes same ↦ elim (is_overrunning (short_to_int (command_of bytes))) [
      | inl over ↦ absurd (
          cc (
            e,
            (receive_round-fault_iff client bytes arrival.0 arrival.1 (omega arith) same).1 over,
          ))
      | inr fine ↦
          let (found, done, answered, checked) =
            receive_round-IsAnswered client bytes arrival.0 arrival.1 (omega arith) same fine in
          same_round found done
            (IsAnswered-IsKept client (command_of bytes) (received bytes) found answered)
    ]
  ]
]
  where
    same_round :
        (found : Round)
        → receive_round client (message bytes) ≡ some found
        → IsKept client found
        → IsKept client round
    same_round found done kept = rw (sym (some-injective found round (sym done ∙ e))) kept

pub receive_round-IsKept :
    (client : ClientInfo) (r : Received) (round : Round)
    → IsArrival r
    → HoldsAnswer client.shared
    → receive_round client r ≡ some round
    → IsKept client round
unfolding receive_round
receive_round-IsKept client closed round arrival h e =
    rw (sym (some-injective _ round e)) (record {
      mailbox = h;
      silent = refl;
      same_flag = refl;
      still_bytes = λ b. b;
      sock = inl refl;
    })
receive_round-IsKept client failed round arrival h e =
    rw (sym (some-injective _ round e)) (idle_round-IsKept client h)
receive_round-IsKept client (message bytes) round arrival h e =
    message-IsKept client bytes round arrival h e

-- The bytes in front of a list.
byte_at-take : (n : ℕ) (xs : List ℕ) (j : ℕ) → j < n → byte_at (take n xs) j ≡ byte_at xs j
byte_at-take zero xs j h = absurd (omega arith)
byte_at-take (suc n) [] j h = refl
byte_at-take (suc n) (x ∷ xs) zero h = refl
byte_at-take (suc n) (x ∷ xs) (suc j) h = byte_at-take n xs j (omega arith)

-- What the sending thread takes out of a mailbox.
abbrev pub taken : SharedData → List ℕ
taken shared =
    take shared.data_size (copied shared.data_size (replicate buffer_size 0) shared.bytes)

module _ (shared : SharedData) (h : HoldsAnswer shared) where
  pub size-le : shared.data_size ≤ buffer_size
  size-le = elim h.holds [
    | inl empty ↦ omega arith
    | inr (cmd, size, answer) ↦ omega (arith, get_send_cmd_size-le (short_to_int cmd))
  ]

  copied_whole :
      copy_bytes shared.data_size (replicate buffer_size 0) shared.bytes
      ≡ some (copied shared.data_size (replicate buffer_size 0) shared.bytes)
  copied_whole =
      copy_in_range shared.data_size (replicate buffer_size 0) shared.bytes
        (omega (arith, size-le, length-replicate {A = ℕ} buffer_size 0))
        (omega (arith, size-le, h.whole))

  length-taken : length (taken shared) ≡ shared.data_size
  length-taken = length-take shared.data_size _ (
      omega (
        arith,
        size-le,
        h.whole,
        length-copied shared.data_size (replicate buffer_size 0) shared.bytes,
        length-replicate {A = ℕ} buffer_size 0,
      ))

  pub byte_at-taken :
      (j : ℕ) → j < shared.data_size → byte_at (taken shared) j ≡ byte_at shared.bytes j
  byte_at-taken j q =
      byte_at-take shared.data_size _ j q
      ∙ copied_inside shared.data_size (replicate buffer_size 0) shared.bytes j
          (omega (arith, size-le, h.whole))
          (omega (arith, size-le, length-replicate {A = ℕ} buffer_size 0)) q

  pub taken-IsAnswer :
      (cmd : ℕ)
      → shared.data_size ≡ frame_size (answer_size cmd)
      → IsAnswer cmd shared.bytes
      → (length (taken shared) ≡ frame_size (answer_size cmd)) × IsAnswer cmd (taken shared)
  taken-IsAnswer cmd size a = (
    length-taken ∙ size,
    record {
      frame =
          IsFrame-cong ctrl_pc_id (answer_size cmd) shared.bytes (taken shared)
            (omega (arith, length-taken)) (λ j q. byte_at-taken j (omega arith)) a.frame;
      from = byte_at-taken 6 (omega arith) ∙ a.from;
      command =
          peek_cong 2 (taken shared) shared.bytes 9 (λ j p q. byte_at-taken j (omega arith))
          ∙ a.command;
    },
  )

  pub taken-IsReply : IsReply (taken shared)
  taken-IsReply = elim h.holds [
    | inl empty ↦ inl (rw empty refl)
    | inr (cmd, size, answer) ↦
        let (sized, whole) = taken-IsAnswer cmd size answer in inr (cmd, sized, whole)
  ]

pub send_round-taken :
    (client : ClientInfo)
    → HoldsAnswer client.shared
    → send_round client woken ≡ some (Effect.send client.client_sock (taken client.shared) ∷ [])
unfolding send_round
send_round-taken client h = rw (copied_whole client.shared h) refl
