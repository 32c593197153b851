-- ===== src/Chunkqueue/Empty.antt =====
-- `chunkqueue_remove_finished_chunks` and `chunkqueue_remove_empty_chunks` (src/chunk.c).
use lighttpd.Base.{
  ◌<◌, ◌≡◌, refl, ap, inl, inr, false, List, [], ◌∷◌, ◌++◌, arith, ◌==◌, ==→eq, Bool-cases, length,
  All,
}
use lighttpd.Memory.{ok, fault, ◌>>=◌}
use lighttpd.Buffer.Holds.{Stores-IsSized}
use lighttpd.Chunk.{Chunk, Chunkqueue}
use lighttpd.Chunk.Octets.{octets, stream, IsChunk, chunk_remaining_length_lem}
use lighttpd.Chunkqueue.{
  remove_finished, chunkqueue_remove_finished_chunks, remove_behind, remove_in,
  chunkqueue_remove_empty_chunks,
}
use lighttpd.Chunkqueue.Cache.{HasCache, IsQueue, chunkqueue_push_unused_chunk_lem}
use lighttpd.Chunkqueue.Written.{Remains, Remains-dropped, Remains-here}

abbrev pub IsFull : Chunk → Type 0
IsFull c = 0 < length (octets c)

remove_finished-Remains :
    (cq : Chunkqueue) (cs : List Chunk)
    → HasCache cq
    → All IsChunk cs
    → (cq' : Chunkqueue) × (remove_finished cq cs ≡ ok cq')
      × Remains cq cq' (stream cs)
      × (ds : List Chunk) × (cs ≡ ds ++ cq'.first)
unfolding remove_finished stream
remove_finished-Remains cq [] k d =
    (record cq { first = [] }, refl, unfold stream in Remains-here cq [] k tt, [], refl)
remove_finished-Remains cq (c ∷ cs) k d =
    let n = chunk_remaining_length_lem (d.0) in
    elim (Bool-cases (length (octets c) == 0)) [
      | inl bare ↦
          let (cq1, run, cache, u, calls) =
            chunkqueue_push_unused_chunk_lem cq c k (Stores-IsSized (d.0).stored)
              (Stores-IsSized (d.0).named) in
          let (cq', run2, r, ds, e) = remove_finished-Remains cq1 cs cache (d.1) in
          (
            cq',
            rw (n, bare, run) run2,
            Remains-dropped cq cq1 cq' (octets c) (stream cs) (==→eq _ 0 bare) u r,
            c ∷ ds,
            ap (◌∷◌ c) e,
          )
      | inr full ↦ (
        record cq { first = c ∷ cs },
        rw (n, full) refl,
        unfold stream in Remains-here cq (c ∷ cs) k d,
        [],
        refl,
      )
    ]

-- Where a queue keeps its invariant, `chunkqueue_remove_finished_chunks` returns a queue that
-- keeps it and has the same octets in the last of its chunks.
pub chunkqueue_remove_finished_chunks_lem :
    (cq : Chunkqueue)
    → IsQueue cq
    → (cq' : Chunkqueue) × (chunkqueue_remove_finished_chunks cq ≡ ok cq')
      × IsQueue cq'
      × (stream cq'.first ≡ stream cq.first)
      × (ds : List Chunk) × (cq.first ≡ ds ++ cq'.first)
unfolding chunkqueue_remove_finished_chunks
chunkqueue_remove_finished_chunks_lem cq k =
    let (cq', run, r, ds, e) = remove_finished-Remains cq cq.first k.cache k.chunks in
    (
      cq',
      run,
      record {
        cache = r.cache;
        chunks = r.chunks;
        balance = omega (arith, k.balance, r.in_same, r.out_same, ap length r.left);
      },
      r.left,
      ds,
      e,
    )

remove_behind_step :
    (cq : Chunkqueue) (c d e : Chunk) (cs : List Chunk)
    → IsChunk d
    → IsFull d
    → remove_behind cq d (e ∷ cs) ≡ fault
    → remove_behind cq c (d ∷ e ∷ cs) ≡ fault
unfolding remove_behind
remove_behind_step cq c d e cs k full h =
    let some_left : (length (octets d) == 0) ≡ false = ground (arith, full) in
    rw (chunk_remaining_length_lem k, some_left) (ap (λ m. m >>= λ r. ok (r.0, c ∷ r.1)) h)

remove_behind-fault :
    (cq : Chunkqueue) (c : Chunk) (cs : List Chunk) (e : Chunk)
    → HasCache cq
    → All IsChunk cs
    → All IsFull cs
    → IsChunk e
    → octets e ≡ []
    → remove_behind cq c (cs ++ (e ∷ [])) ≡ fault
unfolding remove_behind
remove_behind-fault cq c [] e cache k full d bare =
    let (cq1, run, cache1, u, calls) =
      chunkqueue_push_unused_chunk_lem cq e cache (Stores-IsSized d.stored)
        (Stores-IsSized d.named) in
    rw (chunk_remaining_length_lem d, bare, run) refl
remove_behind-fault cq c (f ∷ []) e cache k full d bare =
    remove_behind_step cq c f e [] (k.0) (full.0) (remove_behind-fault cq f [] e cache tt tt d bare)
remove_behind-fault cq c (f ∷ g ∷ cs) e cache k full d bare =
    remove_behind_step cq c f g (cs ++ (e ∷ [])) (k.0) (full.0)
      (remove_behind-fault cq f (g ∷ cs) e cache (k.1) (full.1) d bare)

-- Where a queue keeps its invariant, and its last chunk is the only one with nothing left but is
-- not its first, `chunkqueue_remove_empty_chunks` reads through a null pointer.
pub chunkqueue_remove_empty_chunks-fault :
    (cq : Chunkqueue) (c : Chunk) (cs : List Chunk) (e : Chunk)
    → IsQueue cq
    → cq.first ≡ c ∷ (cs ++ (e ∷ []))
    → IsFull c
    → All IsFull cs
    → octets e ≡ []
    → chunkqueue_remove_empty_chunks cq ≡ fault
unfolding chunkqueue_remove_empty_chunks chunkqueue_remove_finished_chunks remove_finished remove_in
chunkqueue_remove_empty_chunks-fault cq c cs e k chain full fulls bare =
    let ds : All IsChunk (c ∷ (cs ++ (e ∷ []))) = rw chain at k.chunks in
    let some_left : (length (octets c) == 0) ≡ false = ground (arith, full) in
    let cache : HasCache (record cq { first = c ∷ (cs ++ (e ∷ [])) }) = record {
      cached = k.cache.cached;
      counted = k.cache.counted;
      bounded = k.cache.bounded;
    } in
    let stuck =
      remove_behind-fault (record cq { first = c ∷ (cs ++ (e ∷ [])) }) c cs e cache
        (All-left cs (e ∷ []) (ds.1)) fulls (All-last cs e (ds.1)) bare in
    rw (chain, chunk_remaining_length_lem (ds.0), some_left)
      (ap (λ m. m >>= λ r. ok (record (r.0) { first = r.1 })) stuck)
  where
    All-left : (xs ys : List Chunk) → All IsChunk (xs ++ ys) → All IsChunk xs
    All-left [] ys h = tt
    All-left (x ∷ xs) ys h = (h.0, All-left xs ys (h.1))

    All-last : (xs : List Chunk) (y : Chunk) → All IsChunk (xs ++ (y ∷ [])) → IsChunk y
    All-last [] y h = h.0
    All-last (x ∷ xs) y h = All-last xs y (h.1)
