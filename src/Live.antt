-- ===== src/Live.antt =====
-- Live capture with Npcap: capture/NpcapCapture.cpp and its reports.
pub mod Types
pub mod Loop
pub mod Report
pub mod Run
pub mod Turns
pub mod Books
pub mod Liveness
pub mod Cases
pub mod Outcome
pub mod Ending
pub mod Output
pub mod File
pub mod Reread
