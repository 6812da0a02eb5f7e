-- ===== src/Protocol.antt =====
-- The types of dust-devil-core that travel on a Sandstorm connection, and their serialization.
pub mod Users
pub mod Socks
pub mod Events
pub mod Commands
pub mod Results
pub mod Requests
pub mod Metrics
pub mod Handshake
pub mod Responses
pub mod BufferSize
