-- ===== src/Periph.antt =====
-- include/periph and src/periph: the devices behind the bus, one module for each. A device is the
-- record of its registers; a read returns the value and the device after it, a write the device.
pub mod Systick
pub mod Uart
pub mod Mpu
pub mod Dwt
pub mod Scb
pub mod Stm32
pub mod Eth
