-- ===== src/Compiler.antt =====
-- The single-file-component compiler, crates/vue-rs-compiler/src.
pub mod Template
pub mod Sfc
pub mod Style
pub mod Script
pub mod Props
pub mod Codegen
pub mod Component
