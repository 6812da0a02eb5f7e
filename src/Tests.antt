-- ===== src/Tests.antt =====
-- The theorems at concrete values.
mod Wires
mod Sessions
mod Startup
mod Client
mod Running
mod Sizes
mod Arguments
mod Terminal
mod Sockets
mod Commands
