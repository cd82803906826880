-- ===== src/Remoting.antt =====
-- movie/remoting: the wire codec and the association state machine.
pub mod Errors
pub mod Text
pub mod Serialization
pub mod Wire
