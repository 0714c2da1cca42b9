-- ===== src/Hpack.antt =====
-- Header compression of HTTP/2: src/hpack.cpp and src/hpack.h.
pub mod Integer
pub mod Huffman
pub mod Fields
pub mod Build
pub mod Reading
pub mod Parsing
pub mod Meaning
pub mod Progress
pub mod Ends
pub mod FieldRoundTrip
mod FieldTests
mod Tests
