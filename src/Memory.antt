-- ===== src/Memory.antt =====
-- Buffers of bytes, and the loads and stores that C code makes in them through pointers to packed
-- structs. Values are little-endian.
mod Access
mod Laws
mod Copy
mod Apart
unfoldable pub use Access.*
pub use Apart.*
pub use Copy.*
pub use Laws.*
