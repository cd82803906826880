-- ===== src/Future.antt =====
-- movie/future.py: the futures of the runtime and the executor of their callbacks.
pub mod State
pub mod Machine
pub mod Callbacks
pub mod Drain
pub mod Executor
mod Examples
