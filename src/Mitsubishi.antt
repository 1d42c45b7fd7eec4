-- ===== src/Mitsubishi.antt =====
-- mitsubishi_client.go: MELSEC 3E frames over TCP.
pub mod Client
pub mod Request
pub mod Words
pub mod Api
pub mod Reliable
