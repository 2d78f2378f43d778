-- ===== src/Command/Sizes.antt =====
-- `getSendCmdSize`, `getRecvCmdSize` and `getCmdName` of cmd-handler.c.
use communicate_core.Common.{ℕ, ◌≤◌, ◌≡◌, ◌≢◌, String, arith, ◌==◌, if◌then◌else◌}
use communicate_core.Command.Ids.{
  keep_alive_id, ibit_id, rbit_id, cbit_id, extern1_data_id, extern2_data_id, extern3_data_id,
  extern4_data_id, processing_data_id, ctrl_data_id, command_id, sizeof_snd_keep_alive,
  sizeof_rcv_keep_alive, sizeof_snd_bit, sizeof_rcv_bit, sizeof_external1_data,
  sizeof_external2_data, sizeof_external3_data, sizeof_external4_data, sizeof_processing_data,
  sizeof_controll_data, sizeof_command_data,
}

unfoldable pub get_send_cmd_size : ℕ → ℕ
get_send_cmd_size id =
    if id == keep_alive_id
    then sizeof_snd_keep_alive
    else if id == ibit_id
    then sizeof_snd_bit
    else if id == rbit_id
    then sizeof_snd_bit
    else if id == cbit_id
    then sizeof_snd_bit
    else if id == extern1_data_id
    then sizeof_external1_data
    else if id == extern2_data_id
    then sizeof_external2_data
    else if id == extern3_data_id
    then sizeof_external3_data
    else if id == extern4_data_id
    then sizeof_external4_data
    else if id == processing_data_id
    then sizeof_processing_data
    else if id == ctrl_data_id
    then sizeof_controll_data
    else if id == command_id
    then sizeof_command_data
    else 0

unfoldable pub get_recv_cmd_size : ℕ → ℕ
get_recv_cmd_size id =
    if id == keep_alive_id
    then sizeof_rcv_keep_alive
    else if id == ibit_id
    then sizeof_rcv_bit
    else if id == rbit_id
    then sizeof_rcv_bit
    else if id == cbit_id
    then sizeof_rcv_bit
    else if id == extern1_data_id
    then sizeof_external1_data
    else if id == extern2_data_id
    then sizeof_external2_data
    else if id == extern3_data_id
    then sizeof_external3_data
    else if id == extern4_data_id
    then sizeof_external4_data
    else if id == processing_data_id
    then sizeof_processing_data
    else if id == ctrl_data_id
    then sizeof_controll_data
    else if id == command_id
    then sizeof_command_data
    else 0

unfoldable pub get_cmd_name : ℕ → String
get_cmd_name id =
    if id == keep_alive_id
    then "KEEP ALIVE"
    else if id == ibit_id
    then "IBIT"
    else if id == rbit_id
    then "RBIT"
    else if id == cbit_id
    then "CBIT"
    else if id == extern1_data_id
    then "EXTERNAL1 DATA"
    else if id == extern2_data_id
    then "EXTERNAL2 DATA"
    else if id == extern3_data_id
    then "EXTERNAL3 DATA"
    else if id == extern4_data_id
    then "EXTERNAL4 DATA"
    else if id == processing_data_id
    then "PROCESSING DATA"
    else if id == ctrl_data_id
    then "CONTROLL DATA"
    else if id == command_id
    then "COMMAND"
    else "UNKNOWN"

pub get_send_cmd_size-le : (id : ℕ) → get_send_cmd_size id ≤ 24
unfolding get_send_cmd_size
get_send_cmd_size-le id = ground arith

pub get_recv_cmd_size-le : (id : ℕ) → get_recv_cmd_size id ≤ get_send_cmd_size id
unfolding get_send_cmd_size get_recv_cmd_size
get_recv_cmd_size-le id = ground arith

-- Only the three BIT commands have an answer longer than the request, by one byte.
pub cmd_sizes_differ :
    (id : ℕ)
    → get_recv_cmd_size id ≢ get_send_cmd_size id
    → (get_recv_cmd_size id ≡ 1) × (get_send_cmd_size id ≡ 2)
unfolding get_send_cmd_size get_recv_cmd_size
cmd_sizes_differ id h = ground arith
