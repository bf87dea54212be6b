-- ===== src/Ops.antt =====
-- The operations of client/lib/src/op, one module for each class.
pub mod Send
pub mod KeepAlive
pub mod Recv
pub mod Connect
pub mod Subscribe
pub mod Unsubscribe
