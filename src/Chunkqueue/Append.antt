-- ===== src/Chunkqueue/Append.antt =====
-- Appending to a chunk queue (src/chunk.c), seen as a stream of octets.
use lighttpd.Base.{
  ℕ, zero, suc, ◌+◌, ◌-◌, ◌<◌, ◌≡◌, refl, sym, ap, inr, true, false, Option, none, some, [], ◌∷◌,
  ◌++◌, append-nil, arith, ◌==◌, length,
}
use lighttpd.Memory.{ok, Bytes, size_mod, Allocator}
use lighttpd.Buffer.{Buffer}
use lighttpd.Buffer.Holds.{Stores, Stores-IsSized, string_is_empty-Stores, string_of-Stores}
use lighttpd.Buffer.Resize.{move_lem}
use lighttpd.Buffer.Write.{copy_string_len_lem, copy_buffer_lem}
use lighttpd.Chunk.{
  mem_chunk, file_chunk, close_fd, Chunk, Chunkqueue, whole_length, chunkqueue_get_unused_chunk,
}
use lighttpd.Chunk.Octets.{mem_octets, file_octets, octets_as, octets, stream, IsChunk}
use lighttpd.Chunk.Reset.{IsReset}
use lighttpd.Chunkqueue.{
  with_fd, append_file_chunk, chunkqueue_append_file_fd, chunkqueue_append_file,
  chunkqueue_append_mem, chunkqueue_append_buffer,
}
use lighttpd.Chunkqueue.Cache.{
  IsQueue, chunkqueue_get_unused_chunk-Taken, Gains, append_chunk-Gains,
}

-- A reset chunk that gets a string
pub mem-IsChunk :
    (c : Chunk) (m : Buffer) (s : Bytes)
    → IsReset c
    → Stores m s
    → IsChunk (record c { kind = mem_chunk; mem = m })
      × (octets (record c { kind = mem_chunk; mem = m }) ≡ mem_octets s)
unfolding octets_as whole_length
mem-IsChunk c m s r k = (
  record {
    text = s;
    stored = k;
    name = [];
    named = r.no_name;
    within = omega (arith, r.offset_is);
  },
  rw r.offset_is (ap mem_octets (string_of-Stores k)),
)

-- A reset chunk that gets a part of a file
pub file-IsChunk :
    (c : Chunk) (fn : Buffer) (name : Bytes) (fd : Option ℕ) (offset len : ℕ)
    → IsReset c
    → Stores fn name
    → let c' : Chunk = record c {
      kind = file_chunk;
      file_name = fn;
      file_start = offset;
      file_length = len;
      offset = 0;
    } in
      IsChunk (with_fd c' fd) × (octets (with_fd c' fd) ≡ file_octets name offset len)
unfolding octets_as whole_length
file-IsChunk c fn name none offset len r k =
    let e : offset + 0 ≡ offset = omega arith in
    let e' : len - 0 ≡ len = omega arith in
    (
      record { text = []; stored = r.no_text; name = name; named = k; within = omega arith },
      rw (e, e') (ap (λ n. file_octets n offset len) (string_of-Stores k)),
    )
file-IsChunk c fn name (some fd) offset len r k =
    let e : offset + 0 ≡ offset = omega arith in
    let e' : len - 0 ≡ len = omega arith in
    (
      record { text = []; stored = r.no_text; name = name; named = k; within = omega arith },
      rw (e, e') (ap (λ n. file_octets n offset len) (string_of-Stores k)),
    )

pub nonempty : (x : ℕ) (s : Bytes) → (length (x ∷ s) == 0) ≡ false
nonempty x s = ground arith

suc-eq-zero : (n : ℕ) → (suc n == 0) ≡ false
suc-eq-zero n = ground arith

pub Gains-nil : (cq : Chunkqueue) → IsQueue cq → Gains cq [] cq
Gains-nil cq k = (k, sym (append-nil (stream cq.first)))

module _ (h : Allocator) (ample : (n : ℕ) → h.grants n ≡ true) where
  -- With memory granted, where a queue keeps its invariant and the string has a length that fits a
  -- `size_t`, `chunkqueue_append_mem` returns a queue that keeps the invariant and has the bytes
  -- of the string at its end.
  pub chunkqueue_append_mem-Gains :
      (cq : Chunkqueue) (s : Bytes)
      → IsQueue cq
      → length s + 1 < size_mod
      → (cq' : Chunkqueue) × (chunkqueue_append_mem h cq s ≡ ok cq') × Gains cq (mem_octets s) cq'
  unfolding chunkqueue_append_mem
  chunkqueue_append_mem-Gains cq [] k q = (cq, refl, unfold mem_octets in Gains-nil cq k)
  chunkqueue_append_mem-Gains cq (x ∷ s) k q =
      let w = chunkqueue_get_unused_chunk-Taken cq k.cache in
      let (c, cq1) = chunkqueue_get_unused_chunk cq in
      let (m, run, done) =
        copy_string_len_lem h ample c.mem (x ∷ s) (Stores-IsSized w.clean.no_text) q in
      let (d, e) = mem-IsChunk c m (x ∷ s) w.clean (inr done) in
      let (cq', run2, gain) =
        append_chunk-Gains cq cq1 (record c { kind = mem_chunk; mem = m }) k w.cache w.unmoved d in
      (cq', rw (nonempty x s, run) run2, rw e at gain)

  append_file_chunk-Gains :
      (cq : Chunkqueue) (fn : Buffer) (name : Bytes) (fd : Option ℕ) (offset len : ℕ)
      → IsQueue cq
      → Stores fn name
      → (cq' : Chunkqueue) × (append_file_chunk h cq fn fd offset len ≡ ok cq')
        × Gains cq (file_octets name offset len) cq'
  unfolding append_file_chunk
  append_file_chunk-Gains cq fn name fd offset len k f =
      let w = chunkqueue_get_unused_chunk-Taken cq k.cache in
      let (c, cq1) = chunkqueue_get_unused_chunk cq in
      let (n, run, named, same) =
        copy_buffer_lem h ample c.file_name name (Stores-IsSized w.clean.no_name) f in
      let (d, e) = file-IsChunk c n name fd offset len w.clean named in
      let (cq', run2, gain) = append_chunk-Gains cq cq1 _ k w.cache w.unmoved d in
      (cq', rw run run2, rw e at gain)

  pub chunkqueue_append_file-Gains :
      (cq : Chunkqueue) (fn : Buffer) (name : Bytes) (offset len : ℕ)
      → IsQueue cq
      → Stores fn name
      → (cq' : Chunkqueue) × (chunkqueue_append_file h cq fn offset len ≡ ok cq')
        × Gains cq (file_octets name offset len) cq'
  unfolding chunkqueue_append_file
  chunkqueue_append_file-Gains cq fn name offset zero k f =
      (cq, refl, unfold file_octets in Gains-nil cq k)
  chunkqueue_append_file-Gains cq fn name offset (suc n) k f =
      rw (suc-eq-zero n) (append_file_chunk-Gains cq fn name none offset (suc n) k f)

  pub chunkqueue_append_file_fd-Gains :
      (cq : Chunkqueue) (fn : Buffer) (name : Bytes) (fd offset len : ℕ)
      → IsQueue cq
      → Stores fn name
      → (cq' : Chunkqueue) × (chunkqueue_append_file_fd h cq fn fd offset len ≡ ok cq')
        × Gains cq (file_octets name offset len) cq'
  unfolding chunkqueue_append_file_fd
  chunkqueue_append_file_fd-Gains cq fn name fd offset zero k f = (
    record cq { calls = cq.calls ++ (close_fd fd ∷ []) },
    refl,
    (
      record {
        cache = record {
          cached = k.cache.cached;
          counted = k.cache.counted;
          bounded = k.cache.bounded;
        };
        chunks = k.chunks;
        balance = k.balance;
      },
      unfold file_octets in sym (append-nil (stream cq.first)),
    ),
  )
  chunkqueue_append_file_fd-Gains cq fn name fd offset (suc n) k f =
      rw (suc-eq-zero n) (append_file_chunk-Gains cq fn name (some fd) offset (suc n) k f)

pub chunkqueue_append_buffer-Gains :
    (cq : Chunkqueue) (b : Buffer) (s : Bytes)
    → IsQueue cq
    → Stores b s
    → (cq' : Chunkqueue) × (b' : Buffer) × (chunkqueue_append_buffer cq b ≡ ok (cq', b'))
      × Gains cq (mem_octets s) cq'
      × Stores b' []
unfolding chunkqueue_append_buffer
chunkqueue_append_buffer-Gains cq b [] k f =
    (cq, b, rw (string_is_empty-Stores f) refl, unfold mem_octets in Gains-nil cq k, f)
chunkqueue_append_buffer-Gains cq b (x ∷ s) k f =
    let w = chunkqueue_get_unused_chunk-Taken cq k.cache in
    let (c, cq1) = chunkqueue_get_unused_chunk cq in
    let (m, b', run, stored, emptied, small) =
      move_lem c.mem b (x ∷ s) (Stores-IsSized w.clean.no_text) f in
    let (d, e) = mem-IsChunk c m (x ∷ s) w.clean stored in
    let (cq', run2, gain) =
      append_chunk-Gains cq cq1 (record c { kind = mem_chunk; mem = m }) k w.cache w.unmoved d in
    (cq', b', rw (string_is_empty-Stores f, nonempty x s, run, run2) refl, rw e at gain, emptied)
