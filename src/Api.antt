-- ===== src/Api.antt =====
-- The calls of the application into client/lib/src/ClientImpl.cpp.
pub mod Loop
pub mod Prepare
pub mod Connect
pub mod Data
pub mod Calls
pub mod Interface
