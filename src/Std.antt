-- ===== src/Std.antt =====
-- The parts of the C++ standard library that the code relies on.
pub mod Ord
pub mod Map
pub mod Sort
pub mod Shuffle
