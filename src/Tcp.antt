-- ===== src/Tcp.antt =====
-- process1: the TCP server, a thread that receives and one that sends for each client.
pub mod State
pub mod Receive
pub mod Send
pub mod Session
pub mod Accept
pub mod Server
