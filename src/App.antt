-- ===== src/App.antt =====
-- The parts of client/app/common/AppClient.cpp that compute: the texts of the command line tools.
pub mod Data
