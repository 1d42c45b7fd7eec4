-- ===== src/Omron.antt =====
-- clients/plc/omron_fins_client.go
pub mod Client
pub mod Address
pub mod Command
pub mod Api
pub mod Reliable
