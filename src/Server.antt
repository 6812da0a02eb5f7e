-- ===== src/Server.antt =====
-- The server crate, dust-devil/src: its users, the state that its tasks share, the requests of
-- managers and the socks5 clients.
pub mod Args
pub mod Table
pub mod Users
pub mod Lines
pub mod Loading
pub mod Relay
pub mod Responding
pub mod Logger
pub mod Loop
pub mod UsersFile
pub mod Context
pub mod Startup
pub mod Sandstorm
pub mod Socks
