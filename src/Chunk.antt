-- ===== src/Chunk.antt =====
-- The chunks of src/chunk.c and the cache of unused ones. An `off_t` is a number: no offset or
-- length in a queue is negative. The list `first` is the chain from `first` to `last`, so that
-- `last` is its end. The calls of the system for the chunks of a queue are kept in `calls`, in
-- their order. `calloc` of a chunk, a queue or an empty buffer always succeeds.
pub mod Reset
pub mod Octets
use lighttpd.Base.{
  ℕ, ◌+◌, ◌-◌, Bool, false, not, ◌&&◌, Option, none, some, List, [], ◌∷◌, ◌++◌, ltb, leb, ◌==◌,
  if◌then◌else◌,
}
use lighttpd.Memory.{Outcome, ok, ◌>>=◌, ◌>>◌, force_assert, Bytes}
use lighttpd.Buffer.{Buffer, init, string_length, string_is_empty, reset}

-- `c->type`
pub data Kind : Type 0 where
  mem_chunk file_chunk : Kind

-- `unlink` has the block of the file's name, `make_temp` (`mkstemp`) the template, and `write_fd` the bytes.
pub data Call : Type 0 where
  unlink : Bytes → Call
  close_fd : ℕ → Call
  unmap : Call
  make_temp : Bytes → Call
  write_fd : ℕ → Bytes → Call

-- A file descriptor of -1 is `none`; `mapped` is whether `mmap.start` is not `MAP_FAILED`.
pub record Chunk : Type 0 where
  pub kind : Kind
  pub mem : Buffer
  pub file_name : Buffer
  pub file_start : ℕ
  pub file_length : ℕ
  pub fd : Option ℕ
  pub mapped : Bool
  pub is_temp : Bool
  pub offset : ℕ

pub record Chunkqueue : Type 0 where
  pub first : List Chunk
  pub unused : List Chunk
  pub unused_chunks : ℕ
  pub bytes_in : ℕ
  pub bytes_out : ℕ
  pub tempdirs : List Buffer
  pub upload_temp_file_size : ℕ
  pub tempdir_idx : ℕ
  pub calls : List Call

-- What `chunkqueue_set_tempdirs_default` takes as the size of temporary files
unfoldable pub default_tempfile_size : ℕ → ℕ
default_tempfile_size n = if n == 0 then 1048576 else if ltb 134217728 n then 134217728 else n

-- `chunkqueue_init`, with the defaults of `chunkqueue_set_tempdirs_default`
abbrev pub chunkqueue_init : List Buffer → ℕ → Chunkqueue
chunkqueue_init tempdirs size = record {
  first = [];
  unused = [];
  unused_chunks = 0;
  bytes_in = 0;
  bytes_out = 0;
  tempdirs = tempdirs;
  upload_temp_file_size = size;
  tempdir_idx = 0;
  calls = [];
}

abbrev pub chunk_init : Chunk
chunk_init = record {
  kind = mem_chunk;
  mem = init;
  file_name = init;
  file_start = 0;
  file_length = 0;
  fd = none;
  mapped = false;
  is_temp = false;
  offset = 0;
}

abbrev pub fd_calls : Option ℕ → List Call
fd_calls none = []
fd_calls (some fd) = close_fd fd ∷ []

-- The calls that `chunk_reset` makes
unfoldable pub reset_calls : Chunk → List Call
reset_calls c =
    (if c.is_temp && not (string_is_empty c.file_name) then unlink c.file_name.ptr ∷ [] else [])
    ++ (fd_calls c.fd ++ (if c.mapped then unmap ∷ [] else []))

unfoldable pub chunk_reset : Chunk → Outcome Chunk
chunk_reset c = do
  m ← reset c.mem
  n ← reset c.file_name
  ok (record {
    kind = mem_chunk;
    mem = m;
    file_name = n;
    file_start = 0;
    file_length = 0;
    fd = none;
    mapped = false;
    is_temp = false;
    offset = 0;
  })

-- `len` of `chunk_remaining_length`, before the offset is taken off
unfoldable pub whole_length : Chunk → Kind → ℕ
whole_length c mem_chunk = string_length c.mem
whole_length c file_chunk = c.file_length

unfoldable pub chunk_remaining_length : Chunk → Outcome ℕ
chunk_remaining_length c = do
  force_assert (leb c.offset (whole_length c c.kind))
  ok (whole_length c c.kind - c.offset)

-- `chunk_free` resets the chunk before it frees it.
unfoldable pub chunkqueue_push_unused_chunk : Chunkqueue → Chunk → Outcome Chunkqueue
chunkqueue_push_unused_chunk cq c = do
  c' ← chunk_reset c
  let cq' = record cq { calls = cq.calls ++ reset_calls c }
  if ltb 4 cq.unused_chunks
      then ok cq'
      else ok (record cq' { unused = c' ∷ cq.unused; unused_chunks = cq.unused_chunks + 1 })

-- The calls that it makes
unfoldable pub chunk_free : Chunk → Outcome (List Call)
chunk_free c = do c' ← chunk_reset c; ok (reset_calls c)

-- The loops of `chunkqueue_free`
unfoldable pub free_chunks : List Chunk → Outcome (List Call)
free_chunks [] = ok []
free_chunks (c ∷ cs) = do calls ← chunk_free c; rest ← free_chunks cs; ok (calls ++ rest)

-- All calls that the queue has made
unfoldable pub chunkqueue_free : Chunkqueue → Outcome (List Call)
chunkqueue_free cq = do
  calls ← free_chunks cq.first
  rest ← free_chunks cq.unused
  ok (cq.calls ++ calls ++ rest)

abbrev pub take_unused : Chunkqueue → List Chunk → Chunk × Chunkqueue
take_unused cq [] = (chunk_init, cq)
take_unused cq (c ∷ rest) = (c, record cq { unused = rest; unused_chunks = cq.unused_chunks - 1 })

unfoldable pub chunkqueue_get_unused_chunk : Chunkqueue → Chunk × Chunkqueue
chunkqueue_get_unused_chunk cq = take_unused cq cq.unused
