-- ===== src/Scale.antt =====
-- The scale drivers: *_scale.c and the part of scale.c that they share.
pub mod Port
pub mod Frame
pub mod Drivers
pub mod Line
pub mod Config
pub mod Framing
pub mod Header
pub mod Lines
mod Tests
