-- ===== src/Tests.antt =====
-- Runs of the models on small devices, and the theorems at concrete inputs.
mod Modbus
mod Bank
mod Wire
mod Busy
mod Mitsubishi
mod Mock
mod Plc
mod Siemens
mod Store
mod Iot
