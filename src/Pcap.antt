-- ===== src/Pcap.antt =====
-- writer/PcapWriter.{hpp,cpp} and offline/PcapReader.{hpp,cpp}: classic PCAP files.
pub mod Types
pub mod Writer
pub mod Reader
pub mod Layout
pub mod Fields
pub mod Bounds
pub mod Opening
pub mod RoundTrip
pub mod Failure
pub mod Whole
pub mod Time
