-- ===== src/Decode.antt =====
-- decode/PacketDecode.hpp and decode/PacketDecode.cpp: link, network and transport headers.
pub mod Types
pub mod Transport
pub mod Network
pub mod Link
pub mod Bounds
pub mod Vlan
pub mod Locality
pub mod Text
