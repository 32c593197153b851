-- ===== src/Lib.antt =====
-- A verification library for the string core of lighttpd 1.4, its queues of chunks, and the reading of
-- requests (the C files under src/).
--
-- Every part of the server keeps its strings in the buffer of src/buffer.c: a block from malloc, its
-- size, and the number of bytes in use, the terminating zero included. A request's URL is decoded in
-- place (buffer_urldecode_path), the path is simplified in place (buffer_path_simplify), and what the
-- server prints goes through the encoders and the number printers, which append to a buffer.
-- src/keyvalue.c holds the tables that the request parser and the response writer look up.
--
-- What is received and sent waits in the chunk queues of src/chunk.c: a chunk is a buffer or a piece
-- of a file. connection_handle_read (src/connections-glue.c) reads into the last chunk of the read
-- queue of a connection. connection_handle_read_state (src/connections.c) looks for the end of the
-- request header there and takes the header off, and connection_handle_read_post_state
-- (src/connections-glue.c) moves the body to another queue. src/http_chunk.c writes a response to the
-- write queue, in memory or, where there is too much, in temporary files.
--
-- The modules, with the code that each models:
--   Base        names from the libraries, Boolean tests on numbers, lists measured by numbers
--   Memory      blocks of memory as lists of bytes; force_assert (src/buffer.h)
--   Buffer      the buffer and its operations: buffer_init, buffer_reset, buffer_move, buffer_alloc,
--               buffer_realloc, the two buffer_string_prepare functions, buffer_string_set_length,
--               buffer_commit, the copy and append functions, buffer_append_slash
--   Chars       light_isdigit and its like, int2hex, hex2int, li_tohex, buffer_copy_string_hex
--   Encode      buffer_append_string_encoded with its tables, buffer_append_string_c_escaped
--   Url         buffer_urldecode_internal, _path and _query
--   Path        buffer_path_simplify
--   Number      utostr, itostr, the functions that print numbers with them, buffer_append_uint_hex
--   Host        the scan of the name in request_check_hostname of src/request.c
--   Case        buffer_to_lower, buffer_to_upper, buffer_caseless_compare
--   KeyValue    the tables and lookups of src/keyvalue.c
--   Splay       splaytree_splay, splaytree_insert and splaytree_delete of src/splaytree.c, the index
--               of the stat cache
--   Chunk       the chunk and the queue of src/chunk.h; chunk_init, chunk_reset,
--               chunk_remaining_length, and the cache of unused chunks
--   Chunkqueue  the operations of src/chunk.c: appending and prepending, chunkqueue_reset, the
--               length, chunkqueue_mark_written, the removal of finished and of empty chunks; in
--               Transfer chunkqueue_steal and the memory to read into; in Tempfile
--               chunkqueue_append_mem_to_tempfile; in Spill chunkqueue_steal_with_tempfiles
--   Connection  connection_handle_read and connection_handle_read_state, the search for the end of the
--               header in HeaderEnd, connection_handle_read_post_state in Post
--   HttpChunk   src/http_chunk.c: what a response writes, with the framing of the chunked encoding
--   Tests       runs at concrete inputs
-- The file of a module has the definitions, and its child modules have the proofs, those named last
-- apart. A function keeps its name less the prefix buffer_ (or li_); a C variable keeps its name.
--
-- A run is an Outcome: it returns (ok), it ends in a failed force_assert (aborted), or it accesses a
-- byte outside a block, goes through a null pointer or runs out of fuel (fault). A theorem that a call
-- is ok thus says that it returns and stays inside its blocks. Memory is an argument: an Allocator says
-- which sizes malloc and realloc grant, and which bytes new memory holds. Theorems that need memory
-- assume that every request is granted; a request of one size always has the same answer. size_t has
-- 64 bits, and its addition wraps around where the code relies on it; a char is its unsigned value.
--
-- `Holds b s` says that the block of b holds the bytes s, a zero after them, and that the fields used
-- and size agree with it; `Stores b s` allows an empty string in an unused buffer also. The operations
-- are compared with functions on lists of bytes through these predicates.
--
-- A queue stands for a list of octets, `stream`: bytes in memory, or places in a named file. IsQueue
-- is its invariant: its buffers hold strings, no chunk has sent more than it has, the cache is reset
-- and bounded, and the counters bytes_in and bytes_out are those of the octets. An off_t is a number,
-- and the pointer `last` is the end of the chain. `calls` is no field of the code: it has the system
-- calls that the queue made, in their order. The two queues of a move are not the same. What the
-- caller of chunkqueue_get_memory writes there is fill_memory.
--
-- The answers of the system are arguments: of FIONREAD and read in a Socket, of the clocks in a Clock,
-- of mkstemp, write and close for temporary files in a Disk, which may depend on the calls before. Of
-- read it is assumed that it gives no more than it is asked for.
--
-- Loops over a string or a chain of chunks are structural where the bound is in the code. The others
-- run on fuel: the two loops of the URL decoder, the loop over leading spaces and the main loop of the
-- path simplifier have as much as the field used; a round reads one byte more, and they end at the
-- zero. The loop that counts nibbles has 8 rounds, for the 8 bytes of a uintmax_t. The loop of a splay
-- has as many rounds as the tree has nodes, since each goes further down. Running out is a fault, so a
-- theorem that a call is ok says that the fuel was enough. The loop that writes to a temporary file has
-- its fuel as an argument, since it ends by what the system answers.
--
-- Not modelled: an appended string that is part of the buffer's own block (the code reads it after
-- realloc), the part of buffer_path_simplify for Windows, buffer_append_strftime, the messages of
-- failed assertions, the other comparisons and the searches of src/buffer.c,
-- buffer_copy_string_encoded_cgi_varnames, the part of request_check_hostname before its scan,
-- reading over TLS and on Windows, the log, and the other components of the server.
pub mod Base
pub mod Memory
pub mod Buffer
pub mod Chars
pub mod Encode
pub mod Url
pub mod Number
pub mod Path
mod Tests
pub mod KeyValue
pub mod Splay
pub mod Host
pub mod Case
pub mod Chunk
pub mod Chunkqueue
pub mod Connection
pub mod HttpChunk
