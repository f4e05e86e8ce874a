-- ===== src/Timing.antt =====
-- The clocked connections: TimeBuffer is src/Timing/TimeBuffer.hh.
pub mod TimeBuffer
