-- ===== src/Mailbox.antt =====
-- movie/mailbox/default.py: `DefaultMailbox`. Each block under `with self._lock` is one function
-- of the state.
pub mod State
pub mod Enqueue
pub mod Run
pub mod Machine
pub mod Invariant
pub mod Reachable
pub mod Fresh
pub mod Fifo
mod Examples
