-- ===== src/Hpack/Huffman.antt =====
-- The Huffman code of src/util/huffman.cpp and src/util/tables.h.
pub mod Tables
pub mod Tree
pub mod Encode
pub mod Decode
pub mod Codes
pub mod Bits
pub mod Leaves
pub mod Reading
pub mod Strings
pub mod Input
pub mod Writing
pub mod RoundTrip
mod Tests
