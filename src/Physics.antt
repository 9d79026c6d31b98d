-- ===== src/Physics.antt =====
-- physics/: the arithmetic of `double` that the simulator uses, and its vectors.
pub mod Double
pub mod Vector
