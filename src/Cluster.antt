-- ===== src/Cluster.antt =====
-- movie/cluster/_protocol.py: the control messages of the cluster and their payloads.
pub mod Json
pub mod Values
pub mod Messages
pub mod Manifests
pub mod Keys
pub mod Objects
pub mod MemberReading
pub mod Reading
pub mod Serializer
pub mod RoundTrip
pub mod Payloads
pub mod Accepted
mod Examples
