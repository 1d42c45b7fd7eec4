-- ===== src/AllenBradley.antt =====
-- clients/plc/allen_bradley_client.go
pub mod Client
pub mod Frame
pub mod Command
pub mod Api
pub mod Reliable
