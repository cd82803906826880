-- ===== src/Http.antt =====
-- movie/http/codec.py and movie/http/model.py: reading requests and writing responses of HTTP/1.1.
pub mod Octets
pub mod AllBytes
pub mod Model
pub mod Parser
pub mod Feed
pub mod Stable
pub mod Chunks
pub mod Response
pub mod Framing
pub mod Resume
pub mod LineEnd
pub mod Decimal
pub mod Lengths
pub mod Splitting
mod Examples
