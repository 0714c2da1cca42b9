-- ===== src/Http2.antt =====
-- The HTTP/2 protocol: src/http2comm.h, src/http2comm.cpp, src/http2.cpp and src/http2stream.cpp.
pub mod Wire
pub mod Connection
pub mod Send
pub mod Admit
pub mod Frames
pub mod Protocol
pub mod Loops
pub mod Respond
mod Sample
mod Tests
