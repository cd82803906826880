-- ===== src/Actor/Path.antt =====
-- movie/actor/path.py: addresses and paths, printed and parsed.
pub mod Names
pub mod Endpoint
pub mod Tree
pub mod Parse
pub mod Cut
pub mod Chars
pub mod Descend
pub mod RoundTrip
mod Examples
