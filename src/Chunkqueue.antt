-- ===== src/Chunkqueue.antt =====
-- The chunk queues of src/chunk.c: a queue of the bytes to be sent or received, in memory and in
-- files. The functions with temporary files are in `Tempfile` and `Spill`.
pub mod Transfer
pub mod Cache
pub mod Append
pub mod Written
pub mod Reset
pub mod Reachable
pub mod Steal
pub mod Sent
pub mod Empty
pub mod LastChunk
pub mod Reading
pub mod Tempfile
pub mod Spill
use lighttpd.Base.{
  ℕ, ◌+◌, ◌-◌, Bool, true, false, not, ◌&&◌, Option, none, some, List, [], ◌∷◌, ◌++◌, leb, ◌==◌,
  if◌then◌else◌, length,
}
use lighttpd.Memory.{Outcome, ok, fault, ◌>>=◌, ◌>>◌, force_assert, Bytes, Allocator}
use lighttpd.Buffer.{Buffer, string_is_empty, move, copy_string_len, copy_buffer}
use lighttpd.Chunk.{
  mem_chunk, file_chunk, close_fd, Chunk, Chunkqueue, chunk_remaining_length,
  chunkqueue_push_unused_chunk, chunkqueue_get_unused_chunk,
}

unfoldable pub chunkqueue_prepend_chunk : Chunkqueue → Chunk → Outcome Chunkqueue
chunkqueue_prepend_chunk cq c = do
  n ← chunk_remaining_length c
  ok (record cq { first = c ∷ cq.first; bytes_in = cq.bytes_in + n })

unfoldable pub chunkqueue_append_chunk : Chunkqueue → Chunk → Outcome Chunkqueue
chunkqueue_append_chunk cq c = do
  n ← chunk_remaining_length c
  ok (record cq { first = cq.first ++ (c ∷ []); bytes_in = cq.bytes_in + n })

-- The loop of `chunkqueue_reset`
unfoldable pub push_all : Chunkqueue → List Chunk → Outcome Chunkqueue
push_all cq [] = ok cq
push_all cq (c ∷ cs) = chunkqueue_push_unused_chunk cq c >>= λ cq'. push_all cq' cs

unfoldable pub chunkqueue_reset : Chunkqueue → Outcome Chunkqueue
chunkqueue_reset cq = do
  cq' ← push_all (record cq { first = [] }) cq.first
  ok (record cq' { bytes_in = 0; bytes_out = 0; tempdir_idx = 0 })

unfoldable pub chunkqueue_is_empty : Chunkqueue → Bool
chunkqueue_is_empty cq = elim cq.first [ [] ↦ true | c ∷ cs ↦ false ]

abbrev pub with_fd : Chunk → Option ℕ → Chunk
with_fd c none = c
with_fd c (some n) = record c { fd = some n }

module _ (h : Allocator) where
  -- The two functions that append a file: `fd` is `none` in `chunkqueue_append_file`.
  unfoldable pub append_file_chunk : Chunkqueue → Buffer → Option ℕ → ℕ → ℕ → Outcome Chunkqueue
  append_file_chunk cq fn fd offset len = do
    let (c, cq') = chunkqueue_get_unused_chunk cq
    name ← copy_buffer h c.file_name fn
    let c' = record c {
      kind = file_chunk;
      file_name = name;
      file_start = offset;
      file_length = len;
      offset = 0;
    }
    chunkqueue_append_chunk cq' (with_fd c' fd)

  unfoldable pub chunkqueue_append_file_fd : Chunkqueue → Buffer → ℕ → ℕ → ℕ → Outcome Chunkqueue
  chunkqueue_append_file_fd cq fn fd offset len =
      if len == 0
      then ok (record cq { calls = cq.calls ++ (close_fd fd ∷ []) })
      else append_file_chunk cq fn (some fd) offset len

  unfoldable pub chunkqueue_append_file : Chunkqueue → Buffer → ℕ → ℕ → Outcome Chunkqueue
  chunkqueue_append_file cq fn offset len =
      if len == 0 then ok cq else append_file_chunk cq fn none offset len

  -- `chunkqueue_append_mem` of bytes outside the queue's own blocks
  unfoldable pub chunkqueue_append_mem : Chunkqueue → Bytes → Outcome Chunkqueue
  chunkqueue_append_mem cq s = if length s == 0 then ok cq else do
    let (c, cq') = chunkqueue_get_unused_chunk cq
    m ← copy_string_len h c.mem s
    chunkqueue_append_chunk cq' (record c { kind = mem_chunk; mem = m })

-- The new queue and the new `mem`
unfoldable pub chunkqueue_append_buffer : Chunkqueue → Buffer → Outcome (Chunkqueue × Buffer)
chunkqueue_append_buffer cq b = if string_is_empty b then ok (cq, b) else do
  let (c, cq') = chunkqueue_get_unused_chunk cq
  (m, b') ← move c.mem b
  cq'' ← chunkqueue_append_chunk cq' (record c { kind = mem_chunk; mem = m })
  ok (cq'', b')

unfoldable pub chunkqueue_prepend_buffer : Chunkqueue → Buffer → Outcome (Chunkqueue × Buffer)
chunkqueue_prepend_buffer cq b = if string_is_empty b then ok (cq, b) else do
  let (c, cq') = chunkqueue_get_unused_chunk cq
  (m, b') ← move c.mem b
  cq'' ← chunkqueue_prepend_chunk cq' (record c { kind = mem_chunk; mem = m })
  ok (cq'', b')

-- The new `cq` and the new `src`
unfoldable pub chunkqueue_append_chunkqueue : Chunkqueue → Chunkqueue → Chunkqueue × Chunkqueue
chunkqueue_append_chunkqueue cq src = if chunkqueue_is_empty src then (cq, src) else (
  record cq {
    first = cq.first ++ src.first;
    bytes_in = cq.bytes_in + src.bytes_in - src.bytes_out;
  },
  record src { first = []; bytes_out = src.bytes_in },
)

-- The sum of `chunkqueue_length`
unfoldable pub sum_lengths : List Chunk → Outcome ℕ
sum_lengths [] = ok 0
sum_lengths (c ∷ cs) = do n ← chunk_remaining_length c; m ← sum_lengths cs; ok (n + m)

unfoldable pub chunkqueue_length : Chunkqueue → Outcome ℕ
chunkqueue_length cq = sum_lengths cq.first

-- The loop of `chunkqueue_mark_written`: the queue and what is left of `written`
unfoldable pub mark_chunks : Chunkqueue → List Chunk → ℕ → Outcome (Chunkqueue × ℕ)
mark_chunks cq [] written = ok (record cq { first = [] }, written)
mark_chunks cq (c ∷ cs) written = do
  c_len ← chunk_remaining_length c
  let finished : Outcome (Chunkqueue × ℕ) =
      chunkqueue_push_unused_chunk cq (record c { offset = c.offset + c_len }) >>= λ cq'.
      mark_chunks cq' cs (written - c_len)
  if written == 0 && not (c_len == 0)
      then ok (record cq { first = c ∷ cs }, written)
      else if leb c_len written
      then finished
      else ok (record cq { first = record c { offset = c.offset + written } ∷ cs }, 0)

unfoldable pub chunkqueue_mark_written : Chunkqueue → ℕ → Outcome Chunkqueue
chunkqueue_mark_written cq len = do
  (cq', written) ← mark_chunks cq cq.first len
  force_assert (written == 0)
  ok (record cq' { bytes_out = cq'.bytes_out + len })

-- The loop of `chunkqueue_remove_finished_chunks`
unfoldable pub remove_finished : Chunkqueue → List Chunk → Outcome Chunkqueue
remove_finished cq [] = ok (record cq { first = [] })
remove_finished cq (c ∷ cs) = do
  n ← chunk_remaining_length c
  let rest : Outcome Chunkqueue =
      chunkqueue_push_unused_chunk cq c >>= λ cq'. remove_finished cq' cs
  if n == 0 then rest else ok (record cq { first = c ∷ cs })

unfoldable pub chunkqueue_remove_finished_chunks : Chunkqueue → Outcome Chunkqueue
chunkqueue_remove_finished_chunks cq = remove_finished cq cq.first

-- `chunkqueue_remove_empty_chunks`, from the first chunk on: the chunk `c` and what follows it. The
-- loop goes on at `c->next`, which is null once the last chunk was empty: the test of its own
-- `next` is then a fault.
unfoldable pub remove_behind : Chunkqueue → Chunk → List Chunk → Outcome (Chunkqueue × List Chunk)
remove_behind cq c [] = ok (cq, c ∷ [])
remove_behind cq c (e ∷ []) = do
  n ← chunk_remaining_length e
  if n == 0 then (chunkqueue_push_unused_chunk cq e >>= λ cq'. fault) else ok (cq, c ∷ e ∷ [])
remove_behind cq c (e ∷ d ∷ cs) = do
  n ← chunk_remaining_length e
  let emptied : Outcome (Chunkqueue × List Chunk) =
      chunkqueue_push_unused_chunk cq e >>= λ cq'. remove_behind cq' d cs >>= λ r. ok (r.0, c ∷ r.1)
  let kept : Outcome (Chunkqueue × List Chunk) =
      remove_behind cq e (d ∷ cs) >>= λ r. ok (r.0, c ∷ r.1)
  if n == 0 then emptied else kept

unfoldable pub remove_in : Chunkqueue → List Chunk → Outcome Chunkqueue
remove_in cq [] = ok cq
remove_in cq (c ∷ cs) = remove_behind cq c cs >>= λ r. ok (record (r.0) { first = r.1 })

unfoldable pub chunkqueue_remove_empty_chunks : Chunkqueue → Outcome Chunkqueue
chunkqueue_remove_empty_chunks cq =
    chunkqueue_remove_finished_chunks cq >>= λ cq'. remove_in cq' cq'.first
