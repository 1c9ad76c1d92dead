-- ===== src/Reactive.antt =====
-- The reactive runtime, crates/vue-rs-reactive/src/runtime.rs.
pub mod Arena
pub mod State
pub mod Monad
pub mod Links
pub mod Ownership
pub mod Propagation
pub mod Flush
pub mod Exec
pub mod Restores
pub mod Settled
pub mod Lent
pub mod Disposed
