-- ===== src/WebSocket.antt =====
-- ws.hpp: the WebSocket protocol on an upgraded socket, SHA-1 and base64 for its handshake.
mod Frame
pub mod Wire
pub mod Messages
pub mod Termination
pub mod Sha1
pub mod Base64
pub mod Handshake
pub mod Decode
pub mod Pieces
mod Examples
unfoldable pub use Frame.*
