-- ===== src/Chunkqueue/Cache.antt =====
-- The cache of unused chunks, and the invariant of a chunk queue (src/chunk.c).
use lighttpd.Base.{
  ◌+◌, ◌≤◌, ◌≡◌, refl, ap, ◌∙◌, inl, inr, List, [], ◌∷◌, ◌++◌, arith, ltb, Bool-cases, length,
  length-append, All,
}
use lighttpd.Memory.{ok}
use lighttpd.Buffer.Holds.{IsSized}
use lighttpd.Chunk.{
  Chunk, Chunkqueue, reset_calls, chunkqueue_push_unused_chunk, take_unused,
  chunkqueue_get_unused_chunk,
}
use lighttpd.Chunk.Octets.{
  Octet, octets, stream, IsChunk, chunk_remaining_length_lem, stream-append, stream_one,
}
use lighttpd.Chunk.Reset.{IsReset, chunk_init-IsReset, chunk_reset_lem}
use lighttpd.Chunkqueue.{chunkqueue_append_chunk}

-- The cache holds at most five chunks, which are all reset, and counts them.
pub record HasCache (cq : Chunkqueue) : Type 0 where
  pub cached : All IsReset cq.unused
  pub counted : cq.unused_chunks ≡ length cq.unused
  pub bounded : cq.unused_chunks ≤ 5

-- The counters are the octets that came in and went out.
pub record IsQueue (cq : Chunkqueue) : Type 0 where
  pub cache : HasCache cq
  pub chunks : All IsChunk cq.first
  pub balance : cq.bytes_in ≡ cq.bytes_out + length (stream cq.first)

-- The fields of a queue beside its cache and the calls
pub record Unmoved (cq cq' : Chunkqueue) : Type 0 where
  pub same_first : cq'.first ≡ cq.first
  pub same_in : cq'.bytes_in ≡ cq.bytes_in
  pub same_out : cq'.bytes_out ≡ cq.bytes_out

pub Unmoved-trans : (a b c : Chunkqueue) → Unmoved a b → Unmoved b c → Unmoved a c
Unmoved-trans a b c u v = record {
  same_first = v.same_first ∙ u.same_first;
  same_in = v.same_in ∙ u.same_in;
  same_out = v.same_out ∙ u.same_out;
}

pub Unmoved-refl : (a : Chunkqueue) → Unmoved a a
Unmoved-refl a = record { same_first = refl; same_in = refl; same_out = refl }

pub chunkqueue_push_unused_chunk_lem :
    (cq : Chunkqueue) (c : Chunk)
    → HasCache cq
    → IsSized c.mem
    → IsSized c.file_name
    → (cq' : Chunkqueue) × (chunkqueue_push_unused_chunk cq c ≡ ok cq')
      × HasCache cq'
      × Unmoved cq cq'
      × (cq'.calls ≡ cq.calls ++ reset_calls c)
unfolding chunkqueue_push_unused_chunk
chunkqueue_push_unused_chunk_lem cq c k m n =
    let (c', run, clean) = chunk_reset_lem c m n in
    elim (Bool-cases (ltb 4 cq.unused_chunks)) [
      | inl full ↦ (
        record cq { calls = cq.calls ++ reset_calls c },
        rw (run, full) refl,
        record { cached = k.cached; counted = k.counted; bounded = k.bounded },
        record { same_first = refl; same_in = refl; same_out = refl },
        refl,
      )
      | inr room ↦ (
        record cq {
          calls = cq.calls ++ reset_calls c;
          unused = c' ∷ cq.unused;
          unused_chunks = cq.unused_chunks + 1;
        },
        rw (run, room) refl,
        record {
          cached = (clean, k.cached);
          counted = omega (arith, k.counted);
          bounded = ground (arith, room);
        },
        record { same_first = refl; same_in = refl; same_out = refl },
        refl,
      )
    ]

-- A chunk for use is reset, whether it comes from the cache or is new.
pub record Taken (cq : Chunkqueue) (r : Chunk × Chunkqueue) : Type 0 where
  pub clean : IsReset r.0
  pub cache : HasCache r.1
  pub unmoved : Unmoved cq r.1

pub chunkqueue_get_unused_chunk-Taken :
    (cq : Chunkqueue) → HasCache cq → Taken cq (chunkqueue_get_unused_chunk cq)
unfolding chunkqueue_get_unused_chunk
chunkqueue_get_unused_chunk-Taken cq k = taken cq.unused refl
  where
    taken : (us : List Chunk) → cq.unused ≡ us → Taken cq (take_unused cq us)
    taken [] e = record { clean = chunk_init-IsReset; cache = k; unmoved = Unmoved-refl cq }
    taken (c ∷ us) e =
        let cached : All IsReset (c ∷ us) = rw e at k.cached in
        record {
          clean = cached.0;
          cache = record {
            cached = cached.1;
            counted = omega (arith, k.counted, ap length e);
            bounded = omega (arith, k.bounded);
          };
          unmoved = record { same_first = refl; same_in = refl; same_out = refl };
        }

pub All-append {ℓ κ} :
    {A : Type ℓ} (P : A → Type κ) (xs ys : List A) → All P xs → All P ys → All P (xs ++ ys)
All-append P [] ys h k = k
All-append P (x ∷ xs) ys h k = (h.0, All-append P xs ys h.1 k)

-- Appending a chunk appends its octets.
pub chunkqueue_append_chunk_lem :
    (cq : Chunkqueue) (c : Chunk)
    → IsQueue cq
    → IsChunk c
    → (cq' : Chunkqueue) × (chunkqueue_append_chunk cq c ≡ ok cq')
      × IsQueue cq'
      × (cq'.first ≡ cq.first ++ (c ∷ []))
unfolding chunkqueue_append_chunk
chunkqueue_append_chunk_lem cq c k d =
    let n = chunk_remaining_length_lem d in
    let s = stream-append cq.first (c ∷ []) in
    (
      record cq { first = cq.first ++ (c ∷ []); bytes_in = cq.bytes_in + length (octets c) },
      rw n refl,
      record {
        cache = record {
          cached = k.cache.cached;
          counted = k.cache.counted;
          bounded = k.cache.bounded;
        };
        chunks = All-append IsChunk cq.first (c ∷ []) k.chunks (d, tt);
        balance = omega (
          arith,
          k.balance,
          ap length s,
          ap length (stream_one c),
          length-append (stream cq.first) (stream (c ∷ [])),
        );
      },
      refl,
    )

-- The queue keeps its invariant and has some octets more at its end.
abbrev pub Gains : Chunkqueue → List Octet → Chunkqueue → Type 0
Gains cq t cq' = IsQueue cq' × (stream cq'.first ≡ stream cq.first ++ t)

pub Unmoved-IsQueue :
    (cq cq1 : Chunkqueue) → IsQueue cq → HasCache cq1 → Unmoved cq cq1 → IsQueue cq1
Unmoved-IsQueue cq cq1 k k1 u = record {
  cache = k1;
  chunks = rw (← u.same_first) at k.chunks;
  balance = u.same_in ∙ k.balance ∙ omega (arith, u.same_out, ap length (ap stream u.same_first));
}

pub append_chunk-Gains :
    (cq cq1 : Chunkqueue) (c : Chunk)
    → IsQueue cq
    → HasCache cq1
    → Unmoved cq cq1
    → IsChunk c
    → (cq' : Chunkqueue) × (chunkqueue_append_chunk cq1 c ≡ ok cq') × Gains cq (octets c) cq'
append_chunk-Gains cq cq1 c k k1 u d =
    let q1 = Unmoved-IsQueue cq cq1 k k1 u in
    let (cq', run, q, e) = chunkqueue_append_chunk_lem cq1 c q1 d in
    (
      cq',
      run,
      (q, ap stream e ∙ stream-append cq1.first (c ∷ []) ∙ rw (u.same_first, stream_one c) refl),
    )
