-- ===== src/RingBuffer.antt =====
-- FloatRingBuffer.cpp: the window of weights that the charge and learn modes judge by mean and scatter.
pub mod Ring
pub mod Window
pub mod Queue
mod Tests
