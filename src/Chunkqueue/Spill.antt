-- ===== src/Chunkqueue/Spill.antt =====
-- `chunkqueue_steal_with_tempfiles` (src/chunk.c): bytes in memory go to a temporary file.
use lighttpd.Base.{
  ℕ, ◌+◌, ◌-◌, Bool, true, false, not, List, [], ◌∷◌, leb, ◌==◌, if◌then◌else◌, take, drop,
}
use lighttpd.Memory.{Outcome, ok, ◌>>=◌, Allocator}
use lighttpd.Chunk.{
  Kind, mem_chunk, file_chunk, Chunk, Chunkqueue, chunk_remaining_length,
  chunkqueue_push_unused_chunk,
}
use lighttpd.Chunkqueue.{chunkqueue_append_chunk, chunkqueue_append_file}
use lighttpd.Chunkqueue.Tempfile.{Disk, chunkqueue_append_mem_to_tempfile}

module _ (h : Allocator) (disk : Disk) where
  -- A part of a chunk of `src`, or all of it, to `dest`: whether that was possible
  unfoldable pub spill_chunk : ℕ → Chunkqueue → Chunk → Kind → ℕ → ℕ → Outcome (Chunkqueue × Bool)
  spill_chunk fuel dest c file_chunk n clen =
      if n == clen
      then (chunkqueue_append_chunk dest c >>= λ dest'. ok (dest', true))
      else (chunkqueue_append_file h dest c.file_name (c.file_start + c.offset) n >>= λ dest'.
          ok (dest', true))
  spill_chunk fuel dest c mem_chunk n clen =
      chunkqueue_append_mem_to_tempfile h disk fuel dest (take n (drop c.offset c.mem.ptr))

  -- What becomes of a chunk of `src` that was taken as a whole
  unfoldable pub leave_chunk : Chunkqueue → Chunk → Kind → Outcome Chunkqueue
  leave_chunk src c file_chunk = ok src
  leave_chunk src c mem_chunk = chunkqueue_push_unused_chunk src c

  -- The loop over the chain of `src`: the two queues, and whether it returned 0
  unfoldable pub spill_chain :
      ℕ → Chunkqueue → Chunkqueue → List Chunk → ℕ → Outcome (Chunkqueue × Chunkqueue × Bool)
  spill_chain fuel dest src [] len = ok (dest, record src { first = [] }, true)
  spill_chain fuel dest src (c ∷ cs) len = do
    clen ← chunk_remaining_length c
    let n = if leb clen len then clen else len
    let dropped : Outcome (Chunkqueue × Chunkqueue × Bool) =
        chunkqueue_push_unused_chunk src c >>= λ src'. spill_chain fuel dest src' cs len
    let on : Chunkqueue → Outcome (Chunkqueue × Chunkqueue × Bool) = λ dest'.
        leave_chunk src c c.kind >>= λ src'.
        spill_chain fuel dest' (record src' { bytes_out = src'.bytes_out + n }) cs (len - n)
    if len == 0
        then ok (dest, record src { first = c ∷ cs }, true)
        else if clen == 0
        then dropped
        else (do
          (dest', done) ← spill_chunk fuel dest c c.kind n clen
          if not done
              then ok (dest', record src { first = c ∷ cs }, false)
              else if n == clen
              then on dest'
              else ok (
                dest',
                record src {
                  first = record c { offset = c.offset + n } ∷ cs;
                  bytes_out = src.bytes_out + n;
                },
                true,
              ))

  unfoldable pub chunkqueue_steal_with_tempfiles :
      ℕ → Chunkqueue → Chunkqueue → ℕ → Outcome (Chunkqueue × Chunkqueue × Bool)
  chunkqueue_steal_with_tempfiles fuel dest src len = spill_chain fuel dest src src.first len
