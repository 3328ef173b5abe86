-- ===== src/Container.antt =====
-- What a client of Stack or Queue sees: a script of calls, and what each of them replies.
-- A call that throws leaves the object as it was, and the script goes on; after undefined
-- behaviour there is nothing to see.
mod Simulation
pub use Simulation.*
pub mod Calls
