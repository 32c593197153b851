-- ===== src/HttpChunk.antt =====
-- What a response writes to its queue (src/http_chunk.c), with the framing of the chunked transfer
-- encoding. What the stat cache and `open` give is an argument: a descriptor and the size of the
-- file. The fuel is for each write to a temporary file.
pub mod Framed
pub mod Spilled
use lighttpd.Base.{
  ℕ, ◌+◌, ◌-◌, ◌*◌, Bool, true, false, not, ◌||◌, Option, none, some, ltb, leb, ◌==◌, if◌then◌else◌,
  length, take,
}
use lighttpd.Memory.{Outcome, ok, ◌>>=◌, ◌>>◌, Bytes, Allocator, codes}
use lighttpd.Buffer.{Buffer, string_length, string_set_length, append_string_len}
use lighttpd.Chunk.{mem_chunk, file_chunk, close_fd, Chunk, Chunkqueue}
use lighttpd.Chunkqueue.{chunkqueue_append_file_fd, chunkqueue_append_mem, chunkqueue_append_buffer}
use lighttpd.Chunkqueue.Tempfile.{Disk, called, chunkqueue_append_mem_to_tempfile}
use lighttpd.Chunkqueue.Transfer.{last_chunk}
use lighttpd.Number.{append_uint_hex}

-- `con->write_queue`, `srv->tmp_chunk_len`, HTTP_TRANSFER_ENCODING_CHUNKED, and
-- FDEVENT_STREAM_RESPONSE_BUFMIN
pub record Writer : Type 0 where
  pub write_queue : Chunkqueue
  pub tmp_chunk_len : Buffer
  pub is_chunked : Bool
  pub is_bufmin : Bool

-- The parameters `b` and `mem` of `http_chunk_append_data`, of which one is null
pub data Source : Type 0 where
  of_buffer : Buffer → Source
  of_mem : Bytes → Source

abbrev pub crlf : Bytes
crlf = codes "\r\n"

abbrev pub source_length : Source → ℕ
source_length (of_buffer b) = string_length b
source_length (of_mem s) = length s

-- `b ? b->ptr : mem`, for the bytes that are written
abbrev pub source_bytes : Source → Bytes
source_bytes (of_buffer b) = take (string_length b) b.ptr
source_bytes (of_mem s) = s

unfoldable pub last_is_temp : Option Chunk → Bool
last_is_temp none = false
last_is_temp (some c) = elim c.kind [ mem_chunk ↦ false | file_chunk ↦ c.is_temp ]

-- Whether the data goes to a temporary file
unfoldable pub is_over : Writer → ℕ → Bool
is_over w len =
    last_is_temp (last_chunk w.write_queue.first)
    || ltb (1024 * (if w.is_bufmin then 128 else 64))
        (w.write_queue.bytes_in - w.write_queue.bytes_out + len)

module _ (h : Allocator) where
  unfoldable pub length_line : Buffer → ℕ → Outcome Buffer
  length_line b len = do
    b1 ← string_set_length h b 0
    b2 ← append_uint_hex h b1 len
    append_string_len h b2 crlf

  unfoldable pub http_chunk_append_len : Writer → ℕ → Outcome Writer
  http_chunk_append_len w len = do
    b ← length_line w.tmp_chunk_len len
    (cq, b') ← chunkqueue_append_buffer w.write_queue b
    ok (record w { write_queue = cq; tmp_chunk_len = b' })

  unfoldable pub open_frame : Writer → ℕ → Outcome Writer
  open_frame w len = if w.is_chunked then http_chunk_append_len w len else ok w

  unfoldable pub close_frame : Writer → Outcome Writer
  close_frame w =
      if w.is_chunked
      then (chunkqueue_append_mem h w.write_queue crlf >>= λ cq. ok (record w { write_queue = cq }))
      else ok w

  unfoldable pub http_chunk_append_file_fd_range : Writer → Buffer → ℕ → ℕ → ℕ → Outcome Writer
  http_chunk_append_file_fd_range w fn fd offset len = do
    w1 ← open_frame w len
    cq ← chunkqueue_append_file_fd h w1.write_queue fn fd offset len
    close_frame (record w1 { write_queue = cq })

  abbrev closing : Writer → ℕ → Writer
  closing w fd = record w { write_queue = called w.write_queue (close_fd fd) }

  -- A length of -1 is `none`. Whether it returns 0
  unfoldable pub http_chunk_append_file_range :
      Writer → Buffer → Option (ℕ × ℕ) → ℕ → Option ℕ → Outcome (Writer × Bool)
  http_chunk_append_file_range w fn none offset len = ok (w, false)
  http_chunk_append_file_range w fn (some (fd, st_size)) offset none =
      if leb st_size offset
      then ok (closing w fd, offset == st_size)
      else (http_chunk_append_file_fd_range w fn fd offset (st_size - offset) >>= λ w'.
          ok (w', true))
  http_chunk_append_file_range w fn (some (fd, st_size)) offset (some len) =
      if ltb st_size (offset + len)
      then ok (closing w fd, false)
      else (http_chunk_append_file_fd_range w fn fd offset len >>= λ w'. ok (w', true))

  unfoldable pub http_chunk_append_file : Writer → Buffer → Option (ℕ × ℕ) → Outcome (Writer × Bool)
  http_chunk_append_file w fn none = ok (w, false)
  http_chunk_append_file w fn (some (fd, st_size)) =
      if not (st_size == 0)
      then (http_chunk_append_file_fd_range w fn fd 0 st_size >>= λ w'. ok (w', true))
      else ok (closing w fd, true)

  -- The queue, and what is left of the source: the buffer may be emptied.
  unfoldable pub append_source : Chunkqueue → Source → Outcome (Chunkqueue × Source)
  append_source cq (of_buffer b) = chunkqueue_append_buffer cq b >>= λ r. ok (r.0, of_buffer r.1)
  append_source cq (of_mem s) = chunkqueue_append_mem h cq s >>= λ cq'. ok (cq', of_mem s)

  unfoldable pub append_in_memory : Writer → Source → Outcome (Writer × Source)
  append_in_memory w s = do
    w1 ← open_frame w (source_length s)
    (cq, s') ← append_source w1.write_queue s
    w2 ← close_frame (record w1 { write_queue = cq })
    ok (w2, s')

module _ (h : Allocator) (disk : Disk) where
  -- One string to the temporary file, after the others could be written
  unfoldable pub then_write : ℕ → Writer × Bool → Bytes → Outcome (Writer × Bool)
  then_write fuel (w, false) s = ok (w, false)
  then_write fuel (w, true) s = do
    (cq, done) ← chunkqueue_append_mem_to_tempfile h disk fuel w.write_queue s
    ok (record w { write_queue = cq }, done)

  unfoldable pub http_chunk_append_to_tempfile : ℕ → Writer → Bytes → Outcome (Writer × Bool)
  http_chunk_append_to_tempfile fuel w s =
      if w.is_chunked
      then (do
        b ← length_line h w.tmp_chunk_len (length s)
        r1 ← then_write fuel (record w { tmp_chunk_len = b }, true) (take (string_length b) b.ptr)
        r2 ← then_write fuel r1 s
        then_write fuel r2 crlf)
      else then_write fuel (w, true) s

  -- With what is left of the source, and whether it returns 0
  unfoldable pub http_chunk_append_data : ℕ → Writer → Source → Outcome (Writer × Source × Bool)
  http_chunk_append_data fuel w s =
      if source_length s == 0
      then ok (w, s, true)
      else if is_over w (source_length s)
      then (http_chunk_append_to_tempfile fuel w (source_bytes s) >>= λ r. ok (r.0, s, r.1))
      else (append_in_memory h w s >>= λ r. ok (r.0, r.1, true))

  unfoldable pub http_chunk_append_buffer : ℕ → Writer → Buffer → Outcome (Writer × Source × Bool)
  http_chunk_append_buffer fuel w b = http_chunk_append_data fuel w (of_buffer b)

  unfoldable pub http_chunk_append_mem : ℕ → Writer → Bytes → Outcome (Writer × Source × Bool)
  http_chunk_append_mem fuel w s = http_chunk_append_data fuel w (of_mem s)

module _ (h : Allocator) where
  unfoldable pub http_chunk_close : Writer → Outcome Writer
  http_chunk_close w =
      if w.is_chunked
      then (chunkqueue_append_mem h w.write_queue (codes "0\r\n\r\n") >>= λ cq.
          ok (record w { write_queue = cq }))
      else ok w
