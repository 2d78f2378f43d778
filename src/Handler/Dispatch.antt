-- ===== src/Handler/Dispatch.antt =====
-- What `dispatchCommand` does for every id: which handler runs, how far it writes, what is logged.
mod Tests
use text.Mathlib.Text.{◌==◌ as str_eq}
use communicate_core.Common.{
  ℕ, ◌+◌, ◌≤◌, ◌<◌, ◌≡◌, refl, ◌↔◌, List, [], ◌∷◌, Option, String, Bool, true, false, not, none,
  some, arith, length, ◌==◌, if◌then◌else◌, minus_one,
}
use communicate_core.Command.{get_send_cmd_size, get_recv_cmd_size, get_cmd_name}
use communicate_core.Command.Ids.{unknown_id}
use communicate_core.Command.Cases.{by_command, get_send_cmd_size-other, get_cmd_name-other}
use communicate_core.Handler.Defs.{
  Pointer, recv_processing_data, recv_controll_data, recv_command_data,
}
use communicate_core.Handler.Table.{LogLine, logging, Entry, handlers, dispatch_command}
use communicate_core.Handler.Effect.{
  reach, effect, keep_alive_lem, i_bit_lem, r_bit_lem, c_bit_lem, recv_extern1_data_lem,
  recv_extern2_data_lem, recv_extern3_data_lem, recv_extern4_data_lem, keep_alive_overrun,
  i_bit_overrun, r_bit_overrun, c_bit_overrun, recv_extern1_data_overrun, recv_extern2_data_overrun,
  recv_extern3_data_overrun, recv_extern4_data_overrun,
}

-- A command that has a payload, as the switch of `getSendCmdSize` says.
abbrev pub is_known : ℕ → Bool
is_known id = if get_send_cmd_size id == 0 then false else true

abbrev pub expected_result : ℕ → ℕ
expected_result id = if is_known id then 0 else minus_one

abbrev pub expected_log : ℕ → Bool → List LogLine
expected_log id false = []
expected_log id true =
    if is_known id
    then logging id "Start" ∷ logging id "Success" ∷ []
    else logging unknown_id "Unknown Command" ∷ []

abbrev IsEffect : Pointer → Pointer → Bool → ℕ → Type 0
IsEffect p r logger id =
    r.at + reach id ≤ length r.mem
    → dispatch_command id p r logger
      ≡ some (record {
        mem = effect id p r;
        result = expected_result id;
        log = expected_log id logger;
      })

-- With the payload readable and room for what the command writes, the dispatch succeeds for the
-- ids that `getSendCmdSize` knows and returns -1 for all others; it leaves the effect of the
-- command's handler in the answer's buffer, which for an unknown id is no change, and the logger is
-- called with the command's start and success, or once for the unknown command.
pub dispatch_command-effect :
    (p r : Pointer) (logger : Bool)
    → p.at + 24 ≤ length p.mem
    → (id : ℕ) → r.at + reach id ≤ length r.mem
    → dispatch_command id p r logger
      ≡ some (record {
        mem = effect id p r;
        result = expected_result id;
        log = expected_log id logger;
      })
unfolding dispatch_command effect reach get_send_cmd_size recv_processing_data recv_controll_data
    recv_command_data
dispatch_command-effect p r logger a =
    by_command (IsEffect p r logger) (λ h. ground (arith, keep_alive_lem p r h))
      (λ h. ground (arith, i_bit_lem p r h)) (λ h. ground (arith, r_bit_lem p r h))
      (λ h. ground (arith, c_bit_lem p r h)) (λ h. ground (arith, recv_extern1_data_lem p r a h))
      (λ h. ground (arith, recv_extern2_data_lem p r a h))
      (λ h. ground (arith, recv_extern3_data_lem p r a h))
      (λ h. ground (arith, recv_extern4_data_lem p r a h)) (λ h. ground arith) (λ h. ground arith)
      (λ h. ground arith) (λ id other h. ground arith)

-- With less room it writes outside of the answer's buffer.
pub dispatch_command-overrun :
    (id : ℕ) (p r : Pointer) (logger : Bool)
    → p.at + 24 ≤ length p.mem
    → r.at ≤ length r.mem
    → length r.mem < r.at + reach id
    → dispatch_command id p r logger ≡ none
unfolding dispatch_command reach
dispatch_command-overrun id p r logger a c b = ground (
  arith,
  keep_alive_overrun p r,
  i_bit_overrun p r,
  r_bit_overrun p r,
  c_bit_overrun p r,
  recv_extern1_data_overrun p r a,
  recv_extern2_data_overrun p r a,
  recv_extern3_data_overrun p r a,
  recv_extern4_data_overrun p r a,
)

-- The name that the table has for an id, at the first entry with it.
abbrev pub table_name : List Entry → ℕ → Option String
table_name [] id = none
table_name (e ∷ es) id = if e.cmd_id == id then some e.cmd_name else table_name es id

abbrev NameTells : ℕ → Type 0
NameTells id = str_eq (get_cmd_name id) "UNKNOWN" ≡ not (is_known id)

name_tells : (id : ℕ) → NameTells id
unfolding get_send_cmd_size get_cmd_name
name_tells =
    by_command NameTells refl refl refl refl refl refl refl refl refl refl refl
      λ id other. rw (get_cmd_name-other other, get_send_cmd_size-other other)

-- The table and the three switches agree: an id has an entry exactly when `getSendCmdSize` has a
-- size for it, exactly when `getRecvCmdSize` has one and `getCmdName` a name other than UNKNOWN, and
-- the entry's name is that of `getCmdName`.
pub table_matches_switches :
    (id : ℕ)
    → (table_name handlers id ≡ (if is_known id then some (get_cmd_name id) else none))
      × ((get_recv_cmd_size id ≡ 0) ↔ (get_send_cmd_size id ≡ 0))
      × (str_eq (get_cmd_name id) "UNKNOWN" ≡ not (is_known id))
unfolding handlers get_send_cmd_size get_recv_cmd_size get_cmd_name
table_matches_switches id = (ground arith, ground arith, name_tells id)
