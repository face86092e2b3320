-- ===== src/Idl/Read.antt =====
-- What a walk over a tree makes of the listener of pkg/idl/listener.go, part by part.
pub mod States
mod Members
mod Declared
pub mod Enums
pub mod Whole
pub mod Files
mod Raw
pub mod Values
pub mod Numbers
pub mod Linked
