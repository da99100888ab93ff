-- ===== src/Npcap.antt =====
-- The Npcap runtime and its list of interfaces, without a capture.
pub mod Runtime
pub mod Interfaces
pub mod Listing
pub mod Described
