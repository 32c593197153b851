-- ===== src/Chunkqueue/Tempfile/New.antt =====
-- A new temporary file in a queue (src/chunk.c).
use mathlib.Core.Path.{subst}
use lighttpd.Base.{
  ℕ, ◌+◌, ◌-◌, ◌≡◌, refl, sym, ap, ◌∙◌, inr, true, some, [], ◌∷◌, ◌++◌, append-nil, arith, length,
}
use lighttpd.Memory.{ok, Bytes, Allocator}
use lighttpd.Buffer.{Buffer}
use lighttpd.Buffer.Holds.{Stores, Stores-IsSized}
use lighttpd.Buffer.Write.{copy_buffer_lem}
use lighttpd.Chunk.{
  file_chunk, Call, make_temp, Chunk, Chunkqueue, whole_length, take_unused,
  chunkqueue_get_unused_chunk,
}
use lighttpd.Chunk.Octets.{
  file_octets, octets_as, octets, stream, IsChunk, chunk_remaining_length_lem,
}
use lighttpd.Chunk.Reset.{IsReset}
use lighttpd.Chunkqueue.{chunkqueue_append_chunk}
use lighttpd.Chunkqueue.Cache.{
  IsQueue, chunkqueue_get_unused_chunk-Taken, Gains, append_chunk-Gains,
}
use lighttpd.Chunkqueue.LastChunk.{last_chunk-append}
use lighttpd.Chunkqueue.Tempfile.{
  Disk, called, none_fits, fd_of, append_tempfile, chunkqueue_get_append_tempfile, open_last,
}
use lighttpd.Chunkqueue.Tempfile.Open.{
  IsDisk, HasPlace, written_bytes, Opened, taken-tempdirs, written_bytes-other, made,
}
use lighttpd.Chunkqueue.Transfer.{last_chunk}

pub called-IsQueue : (cq : Chunkqueue) (e : Call) → IsQueue cq → IsQueue (called cq e)
called-IsQueue cq e k = record {
  cache = record { cached = k.cache.cached; counted = k.cache.counted; bounded = k.cache.bounded };
  chunks = k.chunks;
  balance = k.balance;
}

-- The chunk for a new file
temp_chunk :
    (c : Chunk) (fn : Buffer) (name : Bytes) (fd : ℕ)
    → IsReset c
    → Stores fn name
    → let c' : Chunk = record c {
      kind = file_chunk;
      fd = some fd;
      is_temp = true;
      file_name = fn;
      file_length = 0;
    } in
      IsChunk c' × (octets c' ≡ [])
unfolding octets_as whole_length file_octets
temp_chunk c fn name fd r k =
    let none_left : 0 - c.offset ≡ 0 = omega arith in
    (
      record {
        text = [];
        stored = r.no_text;
        name = name;
        named = k;
        within = omega (arith, r.offset_is);
      },
      rw none_left refl,
    )

module _ (h : Allocator) (ample : (n : ℕ) → h.grants n ≡ true) (disk : Disk) where
  pub new_file :
      (cq : Chunkqueue)
      → IsDisk disk
      → HasPlace cq.tempdirs cq.tempdir_idx
      → IsQueue cq
      → (cq1 : Chunkqueue) × (fd : ℕ) × (open_last h disk cq none_fits ≡ ok (cq1, some fd))
        × Opened disk cq cq1
  unfolding open_last chunkqueue_get_append_tempfile append_tempfile chunkqueue_append_chunk
      chunkqueue_get_unused_chunk
  new_file cq d place q =
      let (b, run, fd, b', name, t, run2, k) = made h ample disk cq d place in
      let cqc = called cq (make_temp t) in
      let qc = called-IsQueue cq (make_temp t) q in
      let w = chunkqueue_get_unused_chunk-Taken cqc qc.cache in
      let c = (take_unused cqc cqc.unused).0 in
      let cq1 = (take_unused cqc cqc.unused).1 in
      let (fn, run3, named, same) =
        copy_buffer_lem h ample c.file_name name (Stores-IsSized w.clean.no_name) (inr k) in
      let c' = record c {
        kind = file_chunk;
        fd = some fd;
        is_temp = true;
        file_name = fn;
        file_length = 0;
      } in
      let (chunk, bare) = temp_chunk c fn name fd w.clean named in
      let cq2 = record cq1 {
        first = cq1.first ++ (c' ∷ []);
        bytes_in = cq1.bytes_in + length (octets c');
      } in
      let run4 : chunkqueue_append_chunk cq1 c' ≡ ok cq2 =
        rw (chunk_remaining_length_lem chunk) refl in
      let (cq', run5, gain) = append_chunk-Gains cqc cq1 c' qc w.cache w.unmoved chunk in
      let equal : cq' ≡ cq2 = cc in
      let gain2 : Gains cqc (octets c') cq2 = subst (λ u. Gains cqc (octets c') u) equal gain in
      let found : fd_of (last_chunk cq2.first) ≡ some fd =
        ap fd_of (last_chunk-append cq1.first c') ∙ unfold fd_of in refl in
      let dirs = taken-tempdirs cqc cqc.unused in
      (
        cq2,
        fd,
        rw (run, run2, run3) (rw run4 (ap (λ o. ok (cq2, o)) found)),
        record {
          front = cq1.first;
          end = c';
          chain = refl;
          in_file = refl;
          unsent = w.clean.offset_is;
          queue = gain2.0;
          same = gain2.1 ∙ ap (λ o. stream cq.first ++ o) bare ∙ append-nil (stream cq.first);
          calls = make_temp t ∷ [];
          calls_are = dirs.2;
          no_bytes = λ rest.
              written_bytes-other disk cq.calls t rest
              ∙ ap (λ cs. written_bytes disk cs rest) (sym (dirs.2));
          same_dirs = dirs.0;
          same_idx = dirs.1;
        },
      )
