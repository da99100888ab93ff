-- ===== src/Main.antt =====
-- The command line: main.cpp.
pub mod Controls
pub mod World
pub mod Commands
pub mod Exit
pub mod Offline
