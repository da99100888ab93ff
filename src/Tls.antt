-- ===== src/Tls.antt =====
-- policy/TlsConstrictor.hpp and policy/TlsConstrictor.cpp: TLS records in TCP payloads.
pub mod Types
pub mod Scan
pub mod Evaluate
pub mod Loop
pub mod Cases
pub mod Invariant
pub mod Bounds
pub mod Isolation
pub mod Records
pub mod Reference
pub mod Locality
pub mod Segments
pub mod Continuation
pub mod Spanning
