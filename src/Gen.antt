-- ===== src/Gen.antt =====
-- pkg/gen: the generator.
pub mod State
pub mod Writer
pub mod Generator
