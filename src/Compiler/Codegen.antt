-- ===== src/Compiler/Codegen.antt =====
-- The template code generator, crates/vue-rs-compiler/src/codegen.rs. The Rust code it quotes is data
-- here, one constructor for each quoted shape; the state threaded through is the list of slots.
pub mod Names
pub mod Tokens
pub mod Sugar
pub mod Code
pub mod Options
pub mod Styles
pub mod Attrs
pub mod Monad
pub mod Chain
pub mod Children
pub mod Component
pub mod Root
