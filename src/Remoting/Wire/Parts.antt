-- ===== src/Remoting/Wire/Parts.antt =====
-- The groups of fields that the frame bodies of movie/remoting/wire.py share, written and read.
pub mod Write
pub mod Read
pub mod Names
pub mod RoundTrip
