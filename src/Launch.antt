-- ===== src/Launch.antt =====
-- The launch interpreter: roscope/entities. `Context` is launch_context.py, `Substitution` the
-- substitutions, `Action` the actions that change the context and the groups that scope them.
pub mod Context
pub mod Substitution
pub mod Perform
pub mod Action
pub mod Frame
pub mod Scope
pub mod Shared
pub mod Values
pub mod Branches
pub mod Conditions
mod Tests
