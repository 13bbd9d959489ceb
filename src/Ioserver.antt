-- ===== src/Ioserver.antt =====
-- The I/O server's own parts of src/ioserver: the limit on Lua instructions, start-up, plugins.
pub mod Limits
pub mod Shell
pub mod Options
pub mod Plugin
pub mod Dialogue
pub mod History
pub mod Network
pub mod Streams
pub mod Redirected
pub mod Sessions
pub mod Server
