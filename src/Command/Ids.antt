-- ===== src/Command/Ids.antt =====
-- `cmd_id_t` of cmd-handler.h, and the results and struct sizes of command.h.
use communicate_core.Common.{ℕ, ◌+◌, ◌*◌}

abbrev pub keep_alive_id : ℕ
keep_alive_id = 0

abbrev pub ibit_id : ℕ
ibit_id = 1

abbrev pub rbit_id : ℕ
rbit_id = 2

abbrev pub cbit_id : ℕ
cbit_id = 3

abbrev pub extern1_data_id : ℕ
extern1_data_id = 100

abbrev pub extern2_data_id : ℕ
extern2_data_id = 101

abbrev pub extern3_data_id : ℕ
extern3_data_id = 102

abbrev pub extern4_data_id : ℕ
extern4_data_id = 103

abbrev pub processing_data_id : ℕ
processing_data_id = 200

abbrev pub ctrl_data_id : ℕ
ctrl_data_id = 300

abbrev pub command_id : ℕ
command_id = 301

-- `CMD_UNKNOWN`
abbrev pub unknown_id : ℕ
unknown_id = 302

-- `CMD_SUCCESS`
abbrev pub cmd_success : ℕ
cmd_success = 0

abbrev pub sizeof_double : ℕ
sizeof_double = 8

-- The packed structs have no padding.
abbrev pub sizeof_snd_keep_alive : ℕ
sizeof_snd_keep_alive = 1

abbrev pub sizeof_rcv_keep_alive : ℕ
sizeof_rcv_keep_alive = 1

-- `SND_IBIT`, `SND_RBIT` and `SND_CBIT` have the same two members.
abbrev pub sizeof_snd_bit : ℕ
sizeof_snd_bit = 1 + 1

-- `RCV_IBIT`, `RCV_RBIT` and `RCV_CBIT` have one.
abbrev pub sizeof_rcv_bit : ℕ
sizeof_rcv_bit = 1

abbrev pub sizeof_external1_data : ℕ
sizeof_external1_data = 3 * sizeof_double

abbrev pub sizeof_external2_data : ℕ
sizeof_external2_data = 3 * sizeof_double

abbrev pub sizeof_external3_data : ℕ
sizeof_external3_data = 2 * sizeof_double

abbrev pub sizeof_external4_data : ℕ
sizeof_external4_data = 3 * sizeof_double

abbrev pub sizeof_processing_data : ℕ
sizeof_processing_data = 2 * sizeof_double

abbrev pub sizeof_controll_data : ℕ
sizeof_controll_data = 2 * sizeof_double

abbrev pub sizeof_command_data : ℕ
sizeof_command_data = 1

-- The offsets of the members of `SENSOR_DATA`, and its size.
abbrev pub extern1_at : ℕ
extern1_at = 0

abbrev pub extern2_at : ℕ
extern2_at = extern1_at + sizeof_external1_data

abbrev pub extern3_at : ℕ
extern3_at = extern2_at + sizeof_external2_data

abbrev pub extern4_at : ℕ
extern4_at = extern3_at + sizeof_external3_data

abbrev pub sizeof_sensor_data : ℕ
sizeof_sensor_data = extern4_at + sizeof_external4_data
