-- ===== src/DeadLetters.antt =====
-- movie/actor/dead_letter.py: the bounded window of dead letters and its subscriptions.
pub mod Broker
pub mod Window
pub mod Polls
pub mod Drain
mod Examples
