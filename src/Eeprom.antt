-- ===== src/Eeprom.antt =====
-- eeprom.c, cat24c256_eeprom.c and the configuration part of common.c: saved configurations on an
-- I2C EEPROM, with a CRC32 behind each.
pub mod Driver
pub mod Memory
pub mod Crc
pub mod Config
