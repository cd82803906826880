-- ===== src/Remoting/Wire/Body.antt =====
-- `_encode_body` and `_decode_body` of movie/remoting/wire.py, a function for each kind of frame.
pub mod Encode
pub mod Decode
pub mod RoundTrip
