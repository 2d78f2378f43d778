-- ===== src/Handler/Table.antt =====
-- The command table and `dispatchCommand` of cmd-handler.c, and `logging` of logger.c.
use communicate_core.Common.{
  ℕ, List, [], ◌∷◌, ◌++◌, Bool, Option, some, String, ◌>>=◌, ◌==◌, if◌then◌else◌, minus_one,
}
use communicate_core.Command.{get_cmd_name}
use communicate_core.Command.Ids.{
  keep_alive_id, ibit_id, rbit_id, cbit_id, extern1_data_id, extern2_data_id, extern3_data_id,
  extern4_data_id, processing_data_id, ctrl_data_id, command_id, unknown_id,
}
use communicate_core.Handler.Defs.{
  Pointer, Handler, keep_alive, i_bit, r_bit, c_bit, recv_extern1_data, recv_extern2_data,
  recv_extern3_data, recv_extern4_data, recv_processing_data, recv_controll_data, recv_command_data,
}

-- A printed line of the log: the three values of the format string.
pub record LogLine : Type 0 where
  pub cmd_id : ℕ
  pub name : String
  pub status : String

unfoldable pub logging : ℕ → String → LogLine
logging cmd_id status = record { cmd_id = cmd_id; name = get_cmd_name cmd_id; status = status }

-- `cmd_handler_t`
pub record Entry : Type 0 where
  pub cmd_id : ℕ
  pub cmd_name : String
  pub handler : Handler

abbrev pub entry : ℕ → String → Handler → Entry
entry cmd_id cmd_name handler = record { cmd_id = cmd_id; cmd_name = cmd_name; handler = handler }

unfoldable pub handlers : List Entry
handlers =
    entry keep_alive_id "KEEP ALIVE" keep_alive
    ∷ entry ibit_id "IBIT" i_bit
    ∷ entry rbit_id "RBIT" r_bit
    ∷ entry cbit_id "CBIT" c_bit
    ∷ entry extern1_data_id "EXTERNAL1 DATA" recv_extern1_data
    ∷ entry extern2_data_id "EXTERNAL2 DATA" recv_extern2_data
    ∷ entry extern3_data_id "EXTERNAL3 DATA" recv_extern3_data
    ∷ entry extern4_data_id "EXTERNAL4 DATA" recv_extern4_data
    ∷ entry processing_data_id "PROCESSING DATA" recv_processing_data
    ∷ entry ctrl_data_id "CONTROLL DATA" recv_controll_data
    ∷ entry command_id "COMMAND" recv_command_data
    ∷ []

-- What a call of `dispatchCommand` leaves: the buffer of the answer, the return value and what the
-- logger was called with, in order.
pub record Dispatched : Type 0 where
  pub mem : List ℕ
  pub result : ℕ
  pub log : List LogLine

-- `if (logger) logger(id, status);`
abbrev pub log_if : Bool → ℕ → String → List LogLine
log_if logger cmd_id status = if logger then logging cmd_id status ∷ [] else []

-- The loop over the rest of the table; the flag is whether a logger is given.
unfoldable pub dispatch_from : List Entry → ℕ → Pointer → Pointer → Bool → Option Dispatched
dispatch_from [] cmd_id payload response logger = some (record {
  mem = response.mem;
  result = minus_one;
  log = log_if logger unknown_id "Unknown Command";
})
dispatch_from (e ∷ es) cmd_id payload response logger =
    if e.cmd_id == cmd_id
    then ((e.handler payload response) >>= λ done. some (record {
      mem = done.0;
      result = done.1;
      log =
          log_if logger e.cmd_id "Start"
          ++ log_if logger e.cmd_id (if done.1 == 0 then "Success" else "Fail");
    }))
    else dispatch_from es cmd_id payload response logger

unfoldable pub dispatch_command : ℕ → Pointer → Pointer → Bool → Option Dispatched
unfolding handlers dispatch_from
dispatch_command cmd_id payload response logger =
    dispatch_from handlers cmd_id payload response logger
