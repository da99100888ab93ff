-- ===== src/Feed.antt =====
-- offline/OfflinePacketFeed.cpp and stats/CaptureStats.hpp: constricting a whole capture file.
pub mod Types
pub mod Run
pub mod Account
pub mod Books
pub mod Output
