-- ===== src/Std.antt =====
-- The parts of the C++ standard library that the sources call, as far as they use them.
pub mod Text
pub mod Number
