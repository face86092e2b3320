-- ===== src/Idl.antt =====
-- Reading modules: pkg/idl, but for the generated lexer and parser.
pub mod Tree
pub mod Text
pub mod Listener
pub mod Walk
pub mod Build
pub mod Read
pub mod Parser
