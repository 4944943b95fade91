-- ===== src/Lib.antt =====
-- PST writer: a verification library for the parts that put a PST file together.
--
-- The program (C++, src/ and include/pstwriter/) writes Outlook PST files. Its layers, from the
-- bytes up: little-endian helpers and ids, a checksum, two ciphers, trailers and the file header
-- (NDB), pages of the allocation map and of the two B-trees, blocks, the node id allocator,
-- heaps and property contexts (LTP), the assembly of a file, and the conversion of text. Each file
-- says which code it is about.
--
-- - Prelude: shared names; lists, tests and bits over the native natural numbers.
-- - Bytes: include/pstwriter/types.hpp, namespace detail. A buffer is a list of bytes, and a
--   pointer with an offset is an index. Bytes.Fields reads a run of writes as a list of fields.
-- - Ident: include/pstwriter/types.hpp, Nid, Bid, Ib, Bref, PropTag. An enumeration with a fixed
--   width is a number.
-- - Crc: src/crc.cpp. Crc.Bitwise has the polynomial division that the table stands for.
-- - Cipher: src/encoding.cpp. Cipher.Decode has the decoders, which the repository lacks.
-- - Ndb: include/pstwriter/ndb.hpp and src/ndb.cpp, `writePageTrailer`, `appendBlockTrailer`,
--   `populateFreshRgnid`, `serializeHeader` in four parts.
-- - Page: include/pstwriter/page.hpp and src/page.cpp. Page.Layout is about tree pages of entries
--   of any kind.
-- - Block: include/pstwriter/block.hpp and src/block.cpp.
-- - Nbt: include/pstwriter/nbt.hpp and src/nbt.cpp: the builders, the tree of two levels
--   (Nbt.Tree) and the reader (Nbt.Reader), which takes the bytes of a file.
-- - Allocator: src/m5_allocator.cpp. The set of taken ids is a list without repetitions. A throw
--   keeps the state that it leaves behind.
-- - Heap: include/pstwriter/ltp.hpp and the first part of src/ltp.cpp, the heap on a node.
--   Heap.Pc is `buildPropertyContext`, Heap.Pc.Read is `readPropertyContext`; what they throw is
--   an error value. Their proofs go by the layout of the heap (Heap.Layout, Heap.Built), the
--   records (Heap.Pc.Leaf, Heap.Pc.Order) and one property (Heap.Pc.Storage).
-- - Writer: src/writer.cpp, `writeEmptyPst`, `writeM5Pst` (Writer.M5), `writeBlocksPst` and
--   `writeXBlockPst` (Writer.Blocks) on the offsets and pages of Writer.Layout. What fopen, fwrite
--   and fclose answer is a parameter, a Device; the file is the list of the bytes written.
--   Writer.Trace has the chunks that fwrite is called with. An exception through a noexcept
--   function is an error value.
-- - Graph: src/graph_convert.cpp. A string is the list of its bytes, and std::toupper that of the
--   C locale.
--
-- Fuel: the search of `allocate` has 2^27 + 1 rounds, one for each index and one to see the end;
-- the loop of `utf8ToUtf16le` has one round for each byte. The other loops recurse over their
-- rounds. Machine integers keep their wrap-around where the source can reach it (u8 to u64). A
-- write outside a buffer, undefined in C++, is dropped (as where allocations of more than 65,535
-- bytes wrap the cursor of `buildHeapOnNode`); a read of the node tree's reader outside
-- the file is `fault`. The order that std::sort gives entries with one key is that of the input.
--
-- Not modelled: table contexts (src/ltp.cpp), the objects above the contexts
-- (src/messaging.cpp, src/mail.cpp, src/contact.cpp, src/event.cpp), the readers of JSON
-- (src/graph_message.cpp, src/graph_contact.cpp, src/graph_event.cpp), the ISO times of src/graph_convert.cpp, the tools
-- and the tests.
pub mod Prelude
pub mod Bytes
pub mod Crc
pub mod Cipher
pub mod Ident
pub mod Allocator
pub mod Ndb
pub mod Page
pub mod Block
pub mod Graph
pub mod Nbt
pub mod Heap
pub mod Writer
