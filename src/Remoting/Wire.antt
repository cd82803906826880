-- ===== src/Remoting/Wire.antt =====
-- movie/remoting/wire.py: the bounded big-endian codec of the remoting v1 wire contract.
pub mod Types
pub mod Frames
pub mod Writer
pub mod Reader
pub mod RoundTrip
pub mod Parts
pub mod Body
pub mod Preamble
pub mod Header
pub mod UserMessage
pub mod Codec
mod Examples
