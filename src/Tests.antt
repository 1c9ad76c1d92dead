-- ===== src/Tests.antt =====
-- Runs of the models on small inputs, and the theorems at concrete inputs.
mod Runtime
mod Dom
mod Codegen
mod Component
mod Control
mod Compiler
mod Reactive
