-- ===== src/Quic.antt =====
-- policy/QuicConstrictor.hpp and policy/QuicConstrictor.cpp: QUIC headers in UDP payloads.
pub mod Types
pub mod Flow
pub mod Parse
pub mod Evaluate
pub mod Bounds
pub mod Loop
pub mod Symmetry
pub mod Cases
pub mod Output
pub mod Learning
pub mod Steps
pub mod Exchange
pub mod Isolation
pub mod Locality
pub mod Wire
pub mod Varint
pub mod RoundTrip
pub mod Coalesced
