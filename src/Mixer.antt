-- ===== src/Mixer.antt =====
-- bridge/mixer.py: the sum that one call sends to its phone. The limiter works in floating point and
-- is a parameter.
pub mod Source
