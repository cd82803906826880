-- ===== src/Persistence/Behavior.antt =====
-- movie/persistence/behavior.py and movie/persistence/effect.py: an actor whose state the store keeps.
pub mod Effect
pub mod Actor
pub mod System
pub mod Current
pub mod Invariant
pub mod Preserve
pub mod Guarantees
mod Examples
