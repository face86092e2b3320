-- ===== src/Spec.antt =====
-- pkg/spec: the documents that drive the code generation.
pub mod Rules
pub mod Solution
pub mod Words
