-- ===== src/HttpChunk/Spilled.antt =====
-- A response that goes to a temporary file (src/http_chunk.c).
use mathlib.Core.Path.{subst}
use lighttpd.Base.{
  ℕ, ◌+◌, ◌<◌, ◌≡◌, refl, sym, inl, inr, Bool, true, false, ◌++◌, arith, Bool-cases, length, take,
  length-append,
}
use lighttpd.Memory.{ok, Bytes, size_mod, Allocator}
use lighttpd.Buffer.{string_length}
use lighttpd.Buffer.Holds.{string_of-Stores}
use lighttpd.Chunkqueue.Tempfile.{Disk}
use lighttpd.Chunkqueue.Tempfile.Loop.{Spilled, chunkqueue_append_mem_to_tempfile-Spilled}
use lighttpd.Chunkqueue.Tempfile.Open.{IsDisk, HasPlace}
use lighttpd.Chunkqueue.Tempfile.Sequence.{Spilled-trans, HasPlace-Spilled}
use lighttpd.HttpChunk.{Writer, then_write, http_chunk_append_to_tempfile}
use lighttpd.HttpChunk.Framed.{line_break, IsWriter, length_line_lem}
use lighttpd.Number.Hex.{IsHex}

abbrev pub framed_bytes : Bool → Bytes → Bytes → Bytes
framed_bytes true size s = ((size ++ line_break) ++ s) ++ line_break
framed_bytes false size s = s

module _ (h : Allocator) (ample : (n : ℕ) → h.grants n ≡ true) (disk : Disk) where
  -- With memory granted, on a disk that makes and closes files and takes at least a byte of what it
  -- is given, where the write queue keeps its invariant and has a place for temporary files, the
  -- size field of the buffer for lengths is that of its block, the length of the string fits a
  -- `size_t`, and each loop has five rounds more than the string has bytes,
  -- `http_chunk_append_to_tempfile` returns 0. The queue has got as many octets as are written, all
  -- of them in files, and the calls of `write` have written the string, where the response is
  -- chunked between its length in hexadecimal digits with `\r\n`, and `\r\n`.
  pub http_chunk_append_to_tempfile-Spilled :
      (fuel : ℕ) (w : Writer) (s : Bytes)
      → IsDisk disk
      → HasPlace w.write_queue.tempdirs w.write_queue.tempdir_idx
      → IsWriter w
      → length s < size_mod
      → length s + 4 < fuel
      → (w' : Writer) × (http_chunk_append_to_tempfile h disk fuel w s ≡ ok (w', true))
        × (size : Bytes) × IsHex size (length s)
        × Spilled disk w.write_queue (framed_bytes w.is_chunked size s) w'.write_queue
  unfolding http_chunk_append_to_tempfile then_write
  http_chunk_append_to_tempfile-Spilled fuel w s d place k lt enough =
      let (size, value, few, b, run, line) =
        length_line_lem h ample w.tmp_chunk_len (length s) k.line lt in
      elim (Bool-cases w.is_chunked) [
        | inr plain ↦
            let (cq, run1, r1) =
              chunkqueue_append_mem_to_tempfile-Spilled h ample disk fuel w.write_queue s d place
                k.queue (omega (arith, enough)) in
            (
              record w { write_queue = cq },
              rw plain (rw run1 refl),
              size,
              value,
              subst (λ c. Spilled disk w.write_queue (framed_bytes c size s) cq) (sym plain) r1,
            )
        | inl chunked ↦
            let text : take (string_length b) b.ptr ≡ size ++ line_break =
              string_of-Stores {b = b} {s = size ++ line_break} (inr line) in
            let (cq1, run1, r1) =
              chunkqueue_append_mem_to_tempfile-Spilled h ample disk fuel w.write_queue
                (size ++ line_break) d place k.queue
                (omega (arith, few, enough, length-append size line_break)) in
            let place1 = HasPlace-Spilled disk w.write_queue cq1 (size ++ line_break) r1 place in
            let (cq2, run2, r2) =
              chunkqueue_append_mem_to_tempfile-Spilled h ample disk fuel cq1 s d place1 r1.queue
                (omega (arith, enough)) in
            let place2 = HasPlace-Spilled disk cq1 cq2 s r2 place1 in
            let (cq3, run3, r3) =
              chunkqueue_append_mem_to_tempfile-Spilled h ample disk fuel cq2 line_break d place2
                r2.queue (omega (arith, enough)) in
            let all =
              Spilled-trans disk w.write_queue cq2 cq3 ((size ++ line_break) ++ s) line_break
                (Spilled-trans disk w.write_queue cq1 cq2 (size ++ line_break) s r1 r2) r3 in
            (
              record w { write_queue = cq3; tmp_chunk_len = b },
              rw chunked (rw run (rw text (rw run1 (rw run2 (rw run3 refl))))),
              size,
              value,
              subst (λ c. Spilled disk w.write_queue (framed_bytes c size s) cq3) (sym chunked) all,
            )
      ]
