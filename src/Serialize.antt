-- ===== src/Serialize.antt =====
-- dust-devil-core/src/serialize.rs: `ByteWrite` and `ByteRead` for the basic types. An `impl` is a
-- pair of functions, `write_t : T → Writer` and `read_t : Reader T`; a generic `impl` takes those of
-- its parameters. A tuple's `write` is the do block of its parts.
pub mod Numbers
pub mod Texts
pub mod Addresses
pub mod Containers
pub mod Errors
pub mod Rules
