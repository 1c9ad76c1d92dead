-- ===== src/Dom.antt =====
-- The renderer, crates/vue-rs-dom: the builders of attribute texts, event options, and the DOM of
-- the tests.
pub mod Builders
pub mod Events
pub mod Mock
pub mod Control
pub mod Bindings
