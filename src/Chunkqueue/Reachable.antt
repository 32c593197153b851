-- ===== src/Chunkqueue/Reachable.antt =====
-- The queues that the operations of src/chunk.c make, from `chunkqueue_init` on.
use mathlib.Core.Path.{subst}
use lighttpd.Base.{
  ℕ, ◌+◌, ◌-◌, ◌≤◌, ◌<◌, ◌≡◌, refl, sym, ◌∙◌, inl, inr, true, List, arith, ltb, leb, ◌==◌,
  if◌then◌else◌, Bool-cases, length,
}
use lighttpd.Memory.{ok, Bytes, size_mod, Allocator}
use lighttpd.Buffer.{Buffer}
use lighttpd.Buffer.Holds.{Stores}
use lighttpd.Chunk.{Chunkqueue, chunkqueue_init}
use lighttpd.Chunk.Octets.{stream}
use lighttpd.Chunkqueue.{
  chunkqueue_reset, chunkqueue_append_file_fd, chunkqueue_append_file, chunkqueue_append_mem,
  chunkqueue_append_buffer, chunkqueue_length, chunkqueue_mark_written,
  chunkqueue_remove_finished_chunks,
}
use lighttpd.Chunkqueue.Append.{
  chunkqueue_append_mem-Gains, chunkqueue_append_file-Gains, chunkqueue_append_file_fd-Gains,
  chunkqueue_append_buffer-Gains,
}
use lighttpd.Chunkqueue.Cache.{IsQueue}
use lighttpd.Chunkqueue.Empty.{chunkqueue_remove_finished_chunks_lem}
use lighttpd.Chunkqueue.Reading.{fill_memory, Offers, get_memory_of-Given}
use lighttpd.Chunkqueue.Reading.Filled.{chunkqueue_use_memory-Gains}
use lighttpd.Chunkqueue.Reset.{chunkqueue_reset_lem}
use lighttpd.Chunkqueue.Steal.{chunkqueue_steal-moves}
use lighttpd.Chunkqueue.Tempfile.{Disk, chunkqueue_append_mem_to_tempfile}
use lighttpd.Chunkqueue.Tempfile.Loop.{chunkqueue_append_mem_to_tempfile-Spilled}
use lighttpd.Chunkqueue.Tempfile.Open.{IsDisk, HasPlace}
use lighttpd.Chunkqueue.Transfer.{chunkqueue_steal, chunkqueue_get_memory, chunkqueue_use_memory}
use lighttpd.Chunkqueue.Written.{
  chunkqueue_mark_written-drops, chunkqueue_mark_written-aborts, chunkqueue_length-IsQueue,
}
use lighttpd.Splay.{count}
use lighttpd.Splay.Order.{over}

module _ (h : Allocator) where
  -- A buffer or a name that is appended stores a string.
  pub data Reachable : Chunkqueue → Type 0 where
    starts : (dirs : List Buffer) (size : ℕ) → Reachable (chunkqueue_init dirs size)
    appends_mem :
        {cq cq' : Chunkqueue} (s : Bytes)
        → Reachable cq
        → length s + 1 < size_mod
        → chunkqueue_append_mem h cq s ≡ ok cq'
        → Reachable cq'
    appends_buffer :
        {cq cq' : Chunkqueue} (b b' : Buffer) (s : Bytes)
        → Reachable cq
        → Stores b s
        → chunkqueue_append_buffer cq b ≡ ok (cq', b')
        → Reachable cq'
    appends_file :
        {cq cq' : Chunkqueue} (fn : Buffer) (name : Bytes) (offset len : ℕ)
        → Reachable cq
        → Stores fn name
        → chunkqueue_append_file h cq fn offset len ≡ ok cq'
        → Reachable cq'
    appends_file_fd :
        {cq cq' : Chunkqueue} (fn : Buffer) (name : Bytes) (fd offset len : ℕ)
        → Reachable cq
        → Stores fn name
        → chunkqueue_append_file_fd h cq fn fd offset len ≡ ok cq'
        → Reachable cq'
    marks_written :
        {cq cq' : Chunkqueue} (len : ℕ)
        → Reachable cq
        → chunkqueue_mark_written cq len ≡ ok cq'
        → Reachable cq'
    removes_finished :
        {cq cq' : Chunkqueue}
        → Reachable cq
        → chunkqueue_remove_finished_chunks cq ≡ ok cq'
        → Reachable cq'
    resets : {cq cq' : Chunkqueue} → Reachable cq → chunkqueue_reset cq ≡ ok cq' → Reachable cq'
    steals :
        {dest src dest' src' : Chunkqueue} (len : ℕ)
        → Reachable dest
        → Reachable src
        → chunkqueue_steal h dest src len ≡ ok (dest', src')
        → Reachable dest'
    is_stolen_from :
        {dest src dest' src' : Chunkqueue} (len : ℕ)
        → Reachable dest
        → Reachable src
        → chunkqueue_steal h dest src len ≡ ok (dest', src')
        → Reachable src'
    reads :
        {cq cq1 cq2 cq3 : Chunkqueue} (min_size alloc_size target n : ℕ) (t : Bytes)
        → Reachable cq
        → min_size + 5120 < size_mod
        → alloc_size + 5120 < size_mod
        → chunkqueue_get_memory h cq min_size alloc_size ≡ ok (cq1, target, n)
        → length t ≤ n
        → fill_memory cq1 target t ≡ ok cq2
        → chunkqueue_use_memory cq2 (length t) ≡ ok cq3
        → Reachable cq3
    spills :
        {cq cq' : Chunkqueue} (disk : Disk) (fuel : ℕ) (s : Bytes)
        → Reachable cq
        → IsDisk disk
        → HasPlace cq.tempdirs cq.tempdir_idx
        → length s < fuel
        → chunkqueue_append_mem_to_tempfile h disk fuel cq s ≡ ok (cq', true)
        → Reachable cq'

ok_inj {ℓ} : {A : Type ℓ} {x y : A} → ok x ≡ ok y → x ≡ y
ok_inj e = cc

module _ (h : Allocator) (ample : (n : ℕ) → h.grants n ≡ true) where
  marked_or_not :
      (cq cq' : Chunkqueue) (len : ℕ)
      → IsQueue cq
      → chunkqueue_mark_written cq len ≡ ok cq'
      → IsQueue cq'
  marked_or_not cq cq' len k e = elim (Bool-cases (leb len (length (stream cq.first)))) [
    | inl within ↦
        let (q, run, k', rest, count) =
          chunkqueue_mark_written-drops cq len k (ground (arith, within)) in
        let same : q ≡ cq' = cc in subst IsQueue same k'
    | inr over ↦ let run = chunkqueue_mark_written-aborts cq len k (ground (arith, over)) in cc
  ]

  -- Memory of a queue, filled and used
  read_into :
      (cq cq1 cq2 cq3 : Chunkqueue) (min_size alloc_size target n : ℕ) (t : Bytes)
      → IsQueue cq
      → min_size + 5120 < size_mod
      → alloc_size + 5120 < size_mod
      → chunkqueue_get_memory h cq min_size alloc_size ≡ ok (cq1, target, n)
      → length t ≤ n
      → fill_memory cq1 target t ≡ ok cq2
      → chunkqueue_use_memory cq2 (length t) ≡ ok cq3
      → IsQueue cq3
  unfolding chunkqueue_get_memory
  read_into cq cq1 cq2 cq3 min_size alloc_size target n t k small small' got_memory le filled used =
      let least = if min_size == 0 then 1024 else min_size in
      let most = if alloc_size == 0 then 4096 else alloc_size in
      let size = if ltb most least then least else most in
      let (q1, target', n', run, w, more, mems) =
        get_memory_of-Given h ample cq least size k (ground arith)
          (ground (arith, small, small')) in
      let same : (q1, target', n') ≡ (cq1, target, n) = ok_inj (sym run ∙ got_memory) in
      let offers : Offers cq1 (stream cq.first) target n =
        subst (λ (r : Chunkqueue × ℕ × ℕ). Offers r.0 (stream cq.first) r.1 r.2) same w in
      let (q2, run2, q3, run3, gain, mems3) =
        chunkqueue_use_memory-Gains cq1 (stream cq.first) target n t offers le in
      let same2 : q2 ≡ cq2 = ok_inj (sym run2 ∙ filled) in
      let used2 : chunkqueue_use_memory cq2 (length t) ≡ ok q3 =
        subst (λ q. chunkqueue_use_memory q (length t) ≡ ok q3) same2 run3 in
      let same3 : q3 ≡ cq3 = ok_inj (sym used2 ∙ used) in subst IsQueue same3 (gain.0)

  pub Reachable-IsQueue : {cq : Chunkqueue} → Reachable h cq → IsQueue cq
  Reachable-IsQueue (starts dirs size) = record {
    cache = record { cached = tt; counted = refl; bounded = omega arith };
    chunks = tt;
    balance = unfold stream in refl;
  }
  Reachable-IsQueue (appends_mem {cq} {cq'} s r lt e) =
      let (q, run, gain) = chunkqueue_append_mem-Gains h ample cq s (Reachable-IsQueue r) lt in
      let same : q ≡ cq' = cc in subst IsQueue same (gain.0)
  Reachable-IsQueue (appends_buffer {cq} {cq'} b b' s r k e) =
      let (q, c, run, gain, emptied) =
        chunkqueue_append_buffer-Gains cq b s (Reachable-IsQueue r) k in
      let same : q ≡ cq' = cc in subst IsQueue same (gain.0)
  Reachable-IsQueue (appends_file {cq} {cq'} fn name offset len r k e) =
      let (q, run, gain) =
        chunkqueue_append_file-Gains h ample cq fn name offset len (Reachable-IsQueue r) k in
      let same : q ≡ cq' = cc in subst IsQueue same (gain.0)
  Reachable-IsQueue (appends_file_fd {cq} {cq'} fn name fd offset len r k e) =
      let (q, run, gain) =
        chunkqueue_append_file_fd-Gains h ample cq fn name fd offset len (Reachable-IsQueue r) k in
      let same : q ≡ cq' = cc in subst IsQueue same (gain.0)
  Reachable-IsQueue (marks_written {cq} {cq'} len r e) =
      marked_or_not cq cq' len (Reachable-IsQueue r) e
  Reachable-IsQueue (removes_finished {cq} {cq'} r e) =
      let (q, run, k, same_stream, dropped, chain) =
        chunkqueue_remove_finished_chunks_lem cq (Reachable-IsQueue r) in
      let same : q ≡ cq' = cc in subst IsQueue same k
  Reachable-IsQueue (resets {cq} {cq'} r e) =
      let (q, run, k, bare, none_in, none_out, calls, calls_are, gone) =
        chunkqueue_reset_lem cq (Reachable-IsQueue r) in
      let same : q ≡ cq' = cc in subst IsQueue same k
  Reachable-IsQueue (steals {dest} {src} {dest'} {src'} len r s e) =
      let (d, c, run, gain, k, left) =
        chunkqueue_steal-moves h ample dest src len (Reachable-IsQueue r) (Reachable-IsQueue s) in
      let same : d ≡ dest' = cc in subst IsQueue same (gain.0)
  Reachable-IsQueue (is_stolen_from {dest} {src} {dest'} {src'} len r s e) =
      let (d, c, run, gain, k, left) =
        chunkqueue_steal-moves h ample dest src len (Reachable-IsQueue r) (Reachable-IsQueue s) in
      let same : c ≡ src' = cc in subst IsQueue same k
  Reachable-IsQueue
        (reads {cq} {cq1} {cq2} {cq3} min_size alloc_size target n t r small small' got_memory le
          filled used) =
      read_into cq cq1 cq2 cq3 min_size alloc_size target n t (Reachable-IsQueue r) small small'
        got_memory le filled used
  Reachable-IsQueue (spills {cq} {cq'} disk fuel s r d place enough e) =
      let (q, run, done) =
        chunkqueue_append_mem_to_tempfile-Spilled h ample disk fuel cq s d place
          (Reachable-IsQueue r) enough in
      let same : q ≡ cq' = cc in subst IsQueue same done.queue

  -- With memory granted, for every queue that comes of `chunkqueue_init` by any sequence of
  -- appending memory, buffers and files, reading into its memory, writing to temporary files (with
  -- success, on a disk that makes and closes files and takes at least a byte of what it is given),
  -- stealing from and to other such queues, marking as written, removing finished chunks and
  -- resetting, `chunkqueue_length` returns what came in less
  -- what went out, no more went out than came in, and the cache has at most five chunks, as many as
  -- it counts.
  pub chunkqueue_length-balance :
      (cq : Chunkqueue)
      → Reachable h cq
      → (chunkqueue_length cq ≡ ok (cq.bytes_in - cq.bytes_out))
        × (cq.bytes_out ≤ cq.bytes_in)
        × (cq.unused_chunks ≤ 5)
        × (length cq.unused ≡ cq.unused_chunks)
  chunkqueue_length-balance cq r =
      let k = Reachable-IsQueue r in
      (
        chunkqueue_length-IsQueue cq k,
        omega (arith, k.balance),
        k.cache.bounded,
        sym k.cache.counted,
      )
