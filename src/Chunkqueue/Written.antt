-- ===== src/Chunkqueue/Written.antt =====
-- Taking octets off the front of a chunk queue (src/chunk.c).
use lighttpd.Base.{
  ℕ, ◌+◌, ◌-◌, ◌≤◌, ◌<◌, ◌≡◌, refl, sym, ap, ◌∙◌, inl, inr, false, not, ◌&&◌, List, [], ◌∷◌, ◌++◌,
  arith, leb, ◌==◌, Bool-cases, length, drop, length-append, All,
}
use lighttpd.Memory.{ok, aborted}
use lighttpd.Buffer.Holds.{Stores-IsSized}
use lighttpd.Chunk.{Chunk, Chunkqueue}
use lighttpd.Chunk.Octets.{
  Octet, octets, stream, IsChunk, length-drop, drop-nil, chunk_remaining_length_lem,
  advance-IsChunk, drop_past, drop_within,
}
use lighttpd.Chunkqueue.{sum_lengths, chunkqueue_length, mark_chunks, chunkqueue_mark_written}
use lighttpd.Chunkqueue.Cache.{HasCache, IsQueue, Unmoved, chunkqueue_push_unused_chunk_lem}

-- What a loop over the chain leaves: a cache, whole chunks, and the counters as they were
pub record Remains (cq cq' : Chunkqueue) (t : List Octet) : Type 0 where
  pub cache : HasCache cq'
  pub chunks : All IsChunk cq'.first
  pub left : stream cq'.first ≡ t
  pub in_same : cq'.bytes_in ≡ cq.bytes_in
  pub out_same : cq'.bytes_out ≡ cq.bytes_out

Remains-after :
    (cq cq1 cq' : Chunkqueue) (t : List Octet)
    → Unmoved cq cq1
    → Remains cq1 cq' t
    → Remains cq cq' t
Remains-after cq cq1 cq' t u r = record {
  cache = r.cache;
  chunks = r.chunks;
  left = r.left;
  in_same = r.in_same ∙ u.same_in;
  out_same = r.out_same ∙ u.same_out;
}

pub Remains-dropped :
    (cq cq1 cq' : Chunkqueue) (t u : List Octet)
    → length t ≡ 0
    → Unmoved cq cq1
    → Remains cq1 cq' u
    → Remains cq cq' (t ++ u)
Remains-dropped cq cq1 cq' [] u e m r = Remains-after cq cq1 cq' u m r
Remains-dropped cq cq1 cq' (x ∷ t) u e m r = absurd (omega (arith, e))

pub Remains-here :
    (cq : Chunkqueue) (cs : List Chunk)
    → HasCache cq
    → All IsChunk cs
    → Remains cq (record cq { first = cs }) (stream cs)
Remains-here cq cs k d = record {
  cache = record { cached = k.cached; counted = k.counted; bounded = k.bounded };
  chunks = d;
  left = refl;
  in_same = refl;
  out_same = refl;
}

mark_chunks-Remains :
    (cq : Chunkqueue) (cs : List Chunk) (written : ℕ)
    → HasCache cq
    → All IsChunk cs
    → (cq' : Chunkqueue) × (mark_chunks cq cs written ≡ ok (cq', written - length (stream cs)))
      × Remains cq cq' (drop written (stream cs))
unfolding mark_chunks stream
mark_chunks-Remains cq [] written k d =
    let e : written - 0 ≡ written = omega arith in
    (
      record cq { first = [] },
      rw e refl,
      rw (drop-nil written) (unfold stream in Remains-here cq [] k tt),
    )
mark_chunks-Remains cq (c ∷ cs) written k d =
    let n = chunk_remaining_length_lem (d.0) in
    let l = length-append (octets c) (stream cs) in
    elim (Bool-cases (leb (length (octets c)) written)) [
      | inl past ↦ elim (Bool-cases (written == 0 && not (length (octets c) == 0))) [
        | inl stop ↦ absurd (ground (arith, past, stop))
        | inr on ↦
            let c' = record c { offset = c.offset + length (octets c) } in
            let (cq1, run, cache, u, calls) =
              chunkqueue_push_unused_chunk_lem cq c' k (Stores-IsSized (d.0).stored)
                (Stores-IsSized (d.0).named) in
            let (cq', run2, r) =
              mark_chunks-Remains cq1 cs (written - length (octets c)) cache (d.1) in
            let rest : written - length (octets c) - length (stream cs)
                ≡ written - length (octets c ++ stream cs) =
              omega (arith, l) in
            (
              cq',
              rw (n, on, past, run, ← rest) run2,
              rw (drop_past written (octets c) (stream cs) (ground (arith, past)))
                  (Remains-after cq cq1 cq' _ u r),
            )
      ]
      | inr within ↦ elim (Bool-cases (written == 0 && not (length (octets c) == 0))) [
        | inl stop ↦
            let none_left : written ≡ 0 = ground (arith, stop) in
            let rest : 0 ≡ written - length (octets c ++ stream cs) = omega (arith, none_left) in
            (
              record cq { first = c ∷ cs },
              rw (n, stop, ← rest) (ap (λ w. ok (record cq { first = c ∷ cs }, w)) none_left),
              rw none_left (unfold stream in Remains-here cq (c ∷ cs) k d),
            )
        | inr on ↦
            let (e, o) = advance-IsChunk c written (d.0) (ground (arith, within)) in
            let rest : 0 ≡ written - length (octets c ++ stream cs) = ground (arith, within, l) in
            (
              record cq { first = record c { offset = c.offset + written } ∷ cs },
              rw (n, on, within, ← rest) refl,
              rw (drop_within written (octets c) (stream cs) (ground (arith, within)), ← o)
                  (Remains-here cq (record c { offset = c.offset + written } ∷ cs) k (e, d.1)),
            )
      ]
    ]

-- Where a queue keeps its invariant and has at least so many octets, `chunkqueue_mark_written`
-- returns a queue that keeps the invariant, without these octets at its front, and counts them as
-- sent.
pub chunkqueue_mark_written-drops :
    (cq : Chunkqueue) (len : ℕ)
    → IsQueue cq
    → len ≤ length (stream cq.first)
    → (cq' : Chunkqueue) × (chunkqueue_mark_written cq len ≡ ok cq')
      × IsQueue cq'
      × (stream cq'.first ≡ drop len (stream cq.first))
      × (cq'.bytes_out ≡ cq.bytes_out + len)
unfolding chunkqueue_mark_written
chunkqueue_mark_written-drops cq len k h =
    let (cq', run, r) = mark_chunks-Remains cq cq.first len k.cache k.chunks in
    let none_left : len - length (stream cq.first) ≡ 0 = omega arith in
    (
      record cq' { bytes_out = cq'.bytes_out + len },
      rw (run, none_left) refl,
      record {
        cache = record {
          cached = r.cache.cached;
          counted = r.cache.counted;
          bounded = r.cache.bounded;
        };
        chunks = r.chunks;
        balance = omega (
          arith,
          k.balance,
          r.in_same,
          r.out_same,
          ap length r.left,
          length-drop len (stream cq.first),
        );
      },
      r.left,
      omega (arith, r.out_same),
    )

-- Where a queue keeps its invariant and has fewer octets, `chunkqueue_mark_written` ends the
-- process.
pub chunkqueue_mark_written-aborts :
    (cq : Chunkqueue) (len : ℕ)
    → IsQueue cq
    → length (stream cq.first) < len
    → chunkqueue_mark_written cq len ≡ aborted
unfolding chunkqueue_mark_written
chunkqueue_mark_written-aborts cq len k h =
    let (cq', run, r) = mark_chunks-Remains cq cq.first len k.cache k.chunks in
    let some_left : (len - length (stream cq.first) == 0) ≡ false = ground arith in
    rw (run, some_left) refl

sum_lengths_lem : (cs : List Chunk) → All IsChunk cs → sum_lengths cs ≡ ok (length (stream cs))
unfolding sum_lengths stream
sum_lengths_lem [] d = refl
sum_lengths_lem (c ∷ cs) d =
    rw (chunk_remaining_length_lem (d.0), sum_lengths_lem cs (d.1))
      (ap ok (sym (length-append (octets c) (stream cs))))

-- The length of a queue, under the invariant
pub chunkqueue_length-IsQueue :
    (cq : Chunkqueue) → IsQueue cq → chunkqueue_length cq ≡ ok (cq.bytes_in - cq.bytes_out)
unfolding chunkqueue_length
chunkqueue_length-IsQueue cq k =
    sum_lengths_lem cq.first k.chunks ∙ ap ok (omega (arith, k.balance))
