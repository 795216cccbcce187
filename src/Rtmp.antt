-- ===== src/Rtmp.antt =====
-- lib_src/transport/rns_rtmp.c: what a connection sends, in chunks.
pub mod Amf
pub mod Chunk
pub mod Connection
pub mod Incoming
pub mod Parse
pub mod Building
pub mod Replies
pub mod Media
pub mod Payload
pub mod Commands
mod Tests
