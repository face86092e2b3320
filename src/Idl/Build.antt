-- ===== src/Idl/Build.antt =====
-- What a document says, read off its tree without the state of the listener: the module that
-- listener.go is to build. An object is made at the address that is the number of objects before it.
mod Members
mod Declared
pub use Members.*
pub use Declared.*
