-- ===== src/Modbus.antt =====
-- clients/modbus/stub_clients.go
pub mod Checksum
pub mod Client
pub mod Frame
pub mod Exchange
pub mod Registers
pub mod Api
pub mod Reliable
pub mod Public
pub mod Sessions
