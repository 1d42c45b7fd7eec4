-- ===== src/Siemens.antt =====
-- clients/plc/siemens_client.go
pub mod Gos7
pub mod Address
pub mod Client
pub mod Api
pub mod Reliable
