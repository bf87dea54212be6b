-- ===== src/Session.antt =====
-- The parts of client/lib/src/ClientImpl.cpp that drive the publishes in progress: reconnection,
-- acknowledgements, and incoming publishes.
pub mod Connected
pub mod Acks
pub mod Incoming
pub mod Frame
pub mod Stray
