-- ===== src/Chunkqueue/Reading/Filled.antt =====
-- Memory of a queue that its caller has filled (src/chunk.c).
use lighttpd.Base.{
  ℕ, ◌+◌, ◌≤◌, ◌≡◌, refl, sym, ap, ◌∙◌, inl, inr, true, some, List, [], ◌∷◌, ◌++◌, append-nil,
  arith, ltb, ◌==◌, Bool-cases, length, All,
}
use lighttpd.Memory.{ok, Bytes, memcpy}
use lighttpd.Buffer.{Buffer}
use lighttpd.Buffer.Holds.{Stores, Holds-IsSized, string_is_empty-Stores}
use lighttpd.Buffer.Resize.{reset_lem}
use lighttpd.Buffer.Write.{write_lem}
use lighttpd.Chunk.{Chunkqueue}
use lighttpd.Chunk.Octets.{Octet, mem_octets, IsMem}
use lighttpd.Chunkqueue.Cache.{Gains}
use lighttpd.Chunkqueue.LastChunk.{
  last_chunk-append, set_last-append, set_last-IsMem, replaced_last,
}
use lighttpd.Chunkqueue.Reading.{fill_memory, Offers, is_mem-mem, set_last-set_last}
use lighttpd.Chunkqueue.Transfer.{last_chunk, set_last, chunkqueue_use_memory}
use lighttpd.Splay.{sized}

Gains-in :
    (cq cq' : Chunkqueue) (n : ℕ) (t : List Octet)
    → Gains cq t (record cq' { bytes_in = n })
    → n ≡ cq'.bytes_in
    → Gains cq t cq'
Gains-in cq cq' n t g e = (
  record {
    cache = record {
      cached = (g.0).cache.cached;
      counted = (g.0).cache.counted;
      bounded = (g.0).cache.bounded;
    };
    chunks = (g.0).chunks;
    balance = sym e ∙ (g.0).balance;
  },
  g.1,
)

-- Where a queue offers memory, and its caller puts a string there that is not longer, and says so,
-- the queue has the bytes of the string at its end.
pub chunkqueue_use_memory-Gains :
    (cq : Chunkqueue) (o : List Octet) (target n : ℕ) (t : Bytes)
    → Offers cq o target n
    → length t ≤ n
    → (cq1 : Chunkqueue) × (fill_memory cq target t ≡ ok cq1)
      × (cq2 : Chunkqueue) × (chunkqueue_use_memory cq1 (length t) ≡ ok cq2)
      × Gains cq (mem_octets t) cq2
      × (All IsMem cq.first → All IsMem cq2.first)
unfolding fill_memory chunkqueue_use_memory
chunkqueue_use_memory-Gains cq o target n [] w le =
    let end = ap last_chunk w.chain ∙ last_chunk-append w.front w.end in
    let b = w.end.mem in
    let cq1 = record cq { first = set_last cq.first b } in
    let end1 : last_chunk (set_last cq.first b) ≡ some w.end =
      ap (λ cs. last_chunk (set_last cs b)) w.chain
      ∙ ap last_chunk (set_last-append w.front w.end b)
      ∙ last_chunk-append w.front w.end in
    let keep = λ (b' : Buffer) (k : Stores b' (w.text ++ [])).
      (replaced_last cq w.front w.end b' w.text [] w.queue w.chain w.in_mem (inr w.holds) k).0 in
    let empty = string_is_empty-Stores {b = b} {s = w.text} (inr w.holds) in
    let run : fill_memory cq target [] ≡ ok cq1 = unfold fill_memory memcpy in rw end refl in
    elim (Bool-cases (length w.text == 0)) [
      | inl bare ↦
          let none_there : w.text ≡ [] = ground (arith, bare) in
          let (b', run2, sized, used, small, smaller) = reset_lem b (Holds-IsSized w.holds) in
          (
            cq1,
            run,
            record cq1 { first = set_last (set_last cq.first b) b' },
            rw (end1, is_mem-mem w.end w.in_mem, empty, bare, run2) refl,
            Gains-in cq _ (cq.bytes_in + 0) _
                (rw (set_last-set_last cq.first b b')
                  (keep b' (inl (sized, used, rw none_there refl))))
                (omega arith),
            λ mems. set_last-IsMem (set_last cq.first b) b' (set_last-IsMem cq.first b mems),
          )
      | inr full ↦ (
        cq1,
        run,
        cq1,
        rw (end1, is_mem-mem w.end w.in_mem, empty, full) refl,
        Gains-in cq cq1 (cq.bytes_in + 0) _ (keep b (rw (append-nil w.text) (inr w.holds)))
            (omega arith),
        λ mems. set_last-IsMem cq.first b mems,
      )
    ]
chunkqueue_use_memory-Gains cq o target n (x ∷ t) w le =
    let end = ap last_chunk w.chain ∙ last_chunk-append w.front w.end in
    let b = w.end.mem in
    let (m, run, b', run2, done) =
      write_lem (x ∷ t) (record { holds = w.holds; room = omega (arith, w.room, le) }) in
    let b1 = record b { ptr = m } in
    let end1 : last_chunk (set_last cq.first b1) ≡ some (record (w.end) { mem = b1 }) =
      ap (λ cs. last_chunk (set_last cs b1)) w.chain
      ∙ ap last_chunk (set_last-append w.front w.end b1)
      ∙ last_chunk-append w.front (record (w.end) { mem = b1 }) in
    let gain =
      (replaced_last cq w.front w.end b' w.text (x ∷ t) w.queue w.chain w.in_mem (inr w.holds)
        (inr done)).0 in
    let some_read : ltb 0 (length (x ∷ t)) ≡ true = ground arith in
    (
      record cq { first = set_last cq.first b1 },
      rw (end, w.at_end, run) refl,
      record cq {
        first = set_last (set_last cq.first b1) b';
        bytes_in = cq.bytes_in + length (x ∷ t);
      },
      rw (end1, is_mem-mem (record (w.end) { mem = b1 }) w.in_mem, some_read, run2) refl,
      rw (set_last-set_last cq.first b1 b') gain,
      λ mems. set_last-IsMem (set_last cq.first b1) b' (set_last-IsMem cq.first b1 mems),
    )
