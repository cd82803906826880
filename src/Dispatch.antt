-- ===== src/Dispatch.antt =====
-- movie/dispatch/worker_pool.py: the queues of the worker pool.
pub mod WorkQueue
pub mod Pool
pub mod Capacity
pub mod Publish
mod Examples
