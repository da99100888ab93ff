-- ===== src/Policy.antt =====
-- policy/PolicyConfig.hpp and policy/LiveCapturePolicy.{hpp,cpp}: the configuration, and the
-- decision on each packet.
pub mod Config
pub mod Packet
pub mod Decide
pub mod Bounds
pub mod Text
pub mod Locality
