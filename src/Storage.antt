-- ===== src/Storage.antt =====
-- src/storage: the binary primitives, the codecs of the stored data, and the pages in memory.
pub mod Endian
pub mod Binary
pub mod Codec
pub mod BufferPool
pub mod SlottedPage
