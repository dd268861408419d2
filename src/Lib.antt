-- ===== src/Lib.antt =====
-- moDb (Ring0) is an embedded object database in C++. This library models the parts of it that
-- decide what its files hold: the rows and schemas that are stored, the bytes they are stored as,
-- the pages in memory, and the write-ahead log with its recovery.
--
-- Files, with paths from the root of the repository:
-- - Prelude and its children: the names that all files share, tests of numbers, lists, bits and
--   signed numbers over the native ones.
-- - Error: include/modb/error.hpp. `Result<T>` is `Result T`; an `Error` is its code.
-- - Model: Value is include/modb/value.hpp, row.hpp and data_type.hpp; Schema is
--   src/model/schema.cpp. A string is the list of its bytes, a double its 64 bits.
-- - Storage: Endian is include/modb/storage/endian.hpp, Binary is src/storage/binary.cpp and Codec
--   is src/storage/codec.cpp. `BinaryWriter` is the bytes written so far, `BinaryReader` the input
--   and the offset; an operation that changes the reader returns the new one. BufferPool is
--   src/storage/buffer_pool.cpp: an iterator into a list is a `Spot`, and each operation is one
--   step, which the mutex makes it. SlottedPage is src/storage/slotted_page.cpp: a page is the
--   function from an offset to the byte there, an operation returns the new page, and one that
--   fails returns none. Its children are Validate (validate_page, create, from_page), Links (the
--   chain of pages, slots, record_count) and History (sequences of operations).
-- - Object: AttributeValue and Codec are src/object/attribute_value.cpp and object_codec.cpp, the
--   records that objects are stored as; TypeDefinition is src/object/type_definition.cpp, whose
--   check of an object precedes its encoding.
-- - Tx: Crc is the checksum in src/tx/wal.cpp, Wal the format of the log and the four ways to read
--   it, Writer the class `Wal` over the interface `WalSink`, Recovery is src/tx/recovery.cpp. The
--   writer stores what the checksum and the byte order make of a record; recovery reads it back
--   with `read_all` or `read_from_offset` and hands pages to `write_recovered_page` of
--   src/storage/page_file.cpp, which also writes the count of pages into page zero.
-- - Tests: runs of the code at concrete inputs.
--
-- Unsigned integers are natural numbers; where an operation can wrap, `% 2 ^ w` is written out.
-- The loop that reads the log takes the number of its bytes as fuel: each round takes 33 bytes at
-- least, so that more fuel changes nothing on any bytes (`scan-fuel` of Tx/Wal/Fuel). Eviction takes
-- the number of the entries as fuel: each round takes one of them away. The other loops are
-- structural. A page has 8192 bytes, the MODB_PAGE_SIZE that CMakeLists.txt sets by default; a build
-- with another size, such as 4096, which page.hpp takes where nothing is defined, is not covered.
--
-- Parameters: the file behind the log is `WalSink`, of which it is known that a write at the end
-- of the file that succeeds appends its bytes, and that a sync keeps them.
--
-- Not modelled: the messages of errors, the probes of diag, errors of the device while a log is
-- read or a page is recovered, and the cache of the page file during recovery; the heap, the index,
-- the object database, replication, the network and the proxy.
pub mod Prelude
pub mod Error
pub mod Model
pub mod Object
pub mod Storage
pub mod Tx
pub mod Tests
