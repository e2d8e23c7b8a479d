-- ===== src/Drivers.antt =====
-- The drivers of ls2kdev_record/drivers and ls2kdev_play/drivers.
mod Tests
pub mod Rtc
pub mod Clock
pub mod Pwm
pub mod Interrupt
pub mod Gpio
pub mod Port
pub mod Eeprom
pub mod Spi
pub mod Vs1003
pub mod Ethernet
pub mod I2c
pub mod Ads1118
pub mod Uart
