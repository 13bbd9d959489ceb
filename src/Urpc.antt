-- ===== src/Urpc.antt =====
-- The uRPC framework, src/plugins/urpc.
pub mod Kind
pub mod Words
pub mod Codec
pub mod Format
pub mod Marshal
pub mod Object
pub mod Instance
pub mod Transport
pub mod Null
