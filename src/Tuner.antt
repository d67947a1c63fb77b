-- ===== src/Tuner.antt =====
-- learn_tuner.c and learn_tuner.h: the live profile tuner, one child for each part of the file.
pub mod State
pub mod Arm
pub mod Window
pub mod Knob
pub mod Probe
pub mod Observe
pub mod Invariant
pub mod Limits
pub mod History
pub mod Verdicts
pub mod Throws
pub mod Edits
mod Tests
