-- ===== src/Tests.antt =====
-- Concrete packets and files, and what the theorems say of them.
mod Samples
mod Frames
mod Tls
mod Quic
mod Files
mod Settings
mod Live
mod Command
