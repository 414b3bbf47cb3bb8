-- ===== src/Nets.antt =====
-- The net handles of src/nets: each operation of a handle is a request and how its answer is read.
pub mod Supply
pub mod Battery
pub mod Eload
pub mod Analog
pub mod Gpio
pub mod Solar
pub mod I2c
pub mod Spi
pub mod Dmm
pub mod Usb
pub mod Meters
pub mod Ops
