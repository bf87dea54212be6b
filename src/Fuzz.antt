-- ===== src/Fuzz.antt =====
-- The broker that client/afl_fuzz/Generator.cpp plays.
pub mod Topic
pub mod Broker
