-- ===== src/Lib.antt =====
-- vue-rs: a reactive runtime, a compiler of single-file components, and a renderer over an abstract
-- DOM. The compiler turns a component into code that builds elements with the renderer; the elements
-- bind attributes and text with effects of the runtime.
--
-- Base, Text: numbers, options, lists and texts that every part uses. A text is a list of code points.
--
-- Reactive: crates/vue-rs-reactive/src/runtime.rs.
-- * Reactive/Arena is `Arena`, Reactive/State the data types, and Reactive/Links `impl Runtime`.
-- * Reactive/Ownership, Propagation and Flush are the free functions, in the order of the file;
--   Reactive/Exec is the public interface.
-- * The thread-local `RT` is a record that the computations of Reactive/Monad pass on. A result is a
--   value, a Rust panic, or `starved`, where the fuel of the model ran out.
-- * A closure of the host is a term of `Prog`: the calls of the runtime that it makes, in order, each
--   with the closure that takes the answer. `exec` runs one, and its fuel bounds the length of a
--   closure and how deep calls nest. A cell is a variable that a closure captures. All values are of
--   one type, so a downcast does not fail.
-- * The loops over a list of links get one round more than the pool has slots.
-- * Reactive/Restores, Settled, Lent, Disposed, Links/Retrack and Links/Dangling hold the
--   proofs.
--
-- Compiler: crates/vue-rs-compiler/src.
-- * Compiler/Template is parser.rs; a position in the input is the text that is left, and `parse`
--   gives its loops two rounds more than the text is long, which is enough.
-- * Compiler/Sfc is sfc.rs, Compiler/Style style.rs, Compiler/Script script.rs on the token trees that
--   proc_macro2 makes, and Compiler/Props props.rs on the names and types in a type of
--   syn.
-- * Compiler/Codegen is codegen.rs, from Names and Sugar on texts and tokens over Attrs, Chain, Children
--   and Component to Root. The code it quotes is the data of Code; the lexer, the parser and the
--   identifiers of syn are the record `Syn`, which the theorems leave open. A component or an element
--   that is generated is a `Job`, and the fuel of `generate` is the weight of the job, which is enough.
--   The rewriting of `$name` has the number of trees as its fuel, which is enough.
-- * Compiler/Component is component.rs: how a script is divided, the struct of slots, and the builder of
--   props; Compiler/Component/Template is lib.rs, the parser and the generator composed, and the slots, and
--   Compiler/Component/Assembly is compile_component as a whole; what it calls of other libraries is the
--   record `Rust`, which the theorems leave open.
--   The type of a builder is its list of markers, and a call that does not compile is `none`.
--
-- Dom: crates/vue-rs-dom/src.
-- * Dom/Builders is class.rs and style.rs, Dom/Events the event options of backend.rs with the guards
--   of mock.rs, and Dom/Mock the in-memory DOM of mock.rs. A handler is opaque; what a call of it does
--   to the DOM is a parameter. The walks over nodes take fuel, since the code does not keep a node out
--   of its own children.
--
-- * Dom/Bindings and Dom/Control are the methods of `El` in element.rs. An effect is a function of what
--   it reads and of what it captures. Dom/Bindings acts on the in-memory DOM; Dom/Control records the
--   calls of the backend and of disposers, and a branch or a row is a number that is new with every
--   build.
--
-- Tests runs the models on small inputs.
--
-- Not modelled: template refs, callbacks and slots of the renderer; the browser backend (web.rs), the
-- macros and the build support, which call libraries or the file system; the hash behind a scope id; the
-- tokens around the parts of a generated component.
pub mod Base
pub mod Text
pub mod Reactive
pub mod Compiler
pub mod Dom
mod Tests
