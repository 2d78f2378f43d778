-- ===== src/Handler.antt =====
-- command.c, cmd-handler.c and logger.c: the handlers of the commands, their table, and the dispatch
-- of a command to its handler.
mod Defs
unfoldable pub use Defs.*
mod Table
unfoldable pub use Table.*
pub mod Effect
pub mod Dispatch
pub mod Footprint
pub mod Stores
