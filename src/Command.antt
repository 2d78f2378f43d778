-- ===== src/Command.antt =====
-- cmd-handler.h and command.h: the command ids, the sizes of the packed payload structs, and the
-- three switches of cmd-handler.c over an id. An id is a 32-bit pattern, as `cmd_id_t` is unsigned.
pub mod Ids
mod Sizes
pub mod Cases
unfoldable pub use Sizes.*
