-- ===== src/Igzip.antt =====
-- Parts of igzip/: the heap that Huffman trees are built with, the symbols of lengths and distances,
-- and the checksum of zlib streams.
pub mod Heap
pub mod Symbols
pub mod Adler
