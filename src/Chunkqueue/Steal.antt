-- ===== src/Chunkqueue/Steal.antt =====
-- `chunkqueue_steal` (src/chunk.c) moves octets from one queue to another.
use lighttpd.Base.{
  ℕ, zero, suc, ◌+◌, ◌-◌, ◌≤◌, ◌<◌, ◌≡◌, refl, sym, ap, ◌∙◌, inl, inr, true, List, [], ◌∷◌, ◌++◌,
  append_assoc, arith, leb, ◌==◌, leb→le, ==→eq, Bool-cases, length, take, drop, length-append,
  length-take, All,
}
use lighttpd.Memory.{ok, Bytes, size_mod, Allocator}
use lighttpd.Buffer.{Buffer}
use lighttpd.Buffer.Holds.{Stores, Stores-IsSized, string_of, string_of-Stores}
use lighttpd.Chunk.{Kind, mem_chunk, file_chunk, Chunk, Chunkqueue}
use lighttpd.Chunk.Octets.{
  Octet, octets_as, octets, stream, IsChunk, length-mem_octets, length-file_octets, take-mem_octets,
  take-file_octets, length-drop, drop-nil, chunk_remaining_length_lem, stream-append, stream_one,
  stream_cons, advance-IsChunk, drop_past, drop_within, take_past,
}
use lighttpd.Chunkqueue.Append.{
  Gains-nil, chunkqueue_append_mem-Gains, chunkqueue_append_file-Gains,
}
use lighttpd.Chunkqueue.Cache.{
  HasCache, IsQueue, chunkqueue_push_unused_chunk_lem, chunkqueue_append_chunk_lem, Gains,
}
use lighttpd.Chunkqueue.Transfer.{append_part, steal_chain, chunkqueue_steal}

Stores-bound : {b : Buffer} {s : Bytes} → Stores b s → length s + 1 < size_mod
Stores-bound (inl u) = omega (arith, ap length (u.2))
Stores-bound (inr k) = omega (arith, k.size_is, k.in_range)

pub take_within {ℓ} :
    {A : Type ℓ} (n : ℕ) (xs ys : List A) → n ≤ length xs → take n (xs ++ ys) ≡ take n xs
take_within zero xs ys h = refl
take_within (suc n) [] ys h = absurd (omega arith)
take_within (suc n) (x ∷ xs) ys h = ap (◌∷◌ x) (take_within n xs ys (omega arith))

-- A part of the text of a buffer, taken from its block
pub take-drop-ptr :
    (b : Buffer) (s : Bytes) (o n : ℕ)
    → Stores b s
    → o + n ≤ length s
    → take n (drop o b.ptr) ≡ take n (drop o s)
take-drop-ptr b s o zero k h = refl
take-drop-ptr b s o (suc n) (inl u) h = absurd (omega (arith, h, ap length (u.2)))
take-drop-ptr b s o (suc n) (inr k) h =
    rw (k.layout, drop_within o s (0 ∷ k.rest) (omega (arith, h)))
      (take_within (suc n) (drop o s) (0 ∷ k.rest) (omega (arith, h, length-drop o s)))

-- The source while its chain is taken apart
record SourceState (src : Chunkqueue) (cs : List Chunk) : Type 0 where
  cache : HasCache src
  chunks : All IsChunk cs
  balance : src.bytes_in ≡ src.bytes_out + length (stream cs)

SourceState-IsQueue :
    (src : Chunkqueue) (cs : List Chunk) → SourceState src cs → IsQueue (record src { first = cs })
SourceState-IsQueue src cs k = record {
  cache = record { cached = k.cache.cached; counted = k.cache.counted; bounded = k.cache.bounded };
  chunks = k.chunks;
  balance = k.balance;
}

module _ (h : Allocator) (ample : (n : ℕ) → h.grants n ≡ true) where
  append_part-Gains :
      (dest : Chunkqueue) (c : Chunk) (k : Kind) (n : ℕ)
      → IsQueue dest
      → IsChunk c
      → n < length (octets_as c k)
      → (dest' : Chunkqueue) × (append_part h dest c k n ≡ ok dest')
        × Gains dest (take n (octets_as c k)) dest'
  unfolding append_part octets_as
  append_part-Gains dest c mem_chunk n q d lt =
      let l = length-mem_octets (drop c.offset (string_of c.mem)) in
      let m = length-drop c.offset (string_of c.mem) in
      let same = string_of-Stores d.stored in
      let bytes : take n (drop c.offset c.mem.ptr) ≡ take n (drop c.offset (string_of c.mem)) =
        rw same
          (take-drop-ptr c.mem d.text c.offset n d.stored (omega (arith, l, m, ap length same))) in
      let short = length-take n (drop c.offset (string_of c.mem)) (omega (arith, l)) in
      let (dest', run, gain) =
        chunkqueue_append_mem-Gains h ample dest (take n (drop c.offset (string_of c.mem))) q
          (omega (arith, short, l, m, ap length same, Stores-bound d.stored)) in
      (dest', rw bytes run, rw (take-mem_octets n (drop c.offset (string_of c.mem))) gain)
  append_part-Gains dest c file_chunk n q d lt =
      let l =
        length-file_octets (string_of c.file_name) (c.file_start + c.offset)
          (c.file_length - c.offset) in
      let (dest', run, gain) =
        chunkqueue_append_file-Gains h ample dest c.file_name d.name (c.file_start + c.offset) n q
          d.named in
      (
        dest',
        run,
        rw
            (
              take-file_octets (string_of c.file_name) (c.file_start + c.offset) n
                  (c.file_length - c.offset) (omega (arith, l)),
              string_of-Stores d.named,
            )
            gain,
      )

  record Stolen (dest src : Chunkqueue) (t : List Octet) (len : ℕ) (dest' src' : Chunkqueue)
      : Type 0 where
    gain : Gains dest (take len t) dest'
    source : IsQueue src'
    left : stream src'.first ≡ drop len t
    in_same : src'.bytes_in ≡ src.bytes_in

  Stolen-moved :
      (dest dest1 dest' src src1 src' : Chunkqueue) (t u : List Octet) (len : ℕ)
      → length t ≤ len
      → stream dest1.first ≡ stream dest.first ++ t
      → src1.bytes_in ≡ src.bytes_in
      → Stolen dest1 src1 u (len - length t) dest' src'
      → Stolen dest src (t ++ u) len dest' src'
  Stolen-moved dest dest1 dest' src src1 src' t u len le e i r = record {
    gain = (
      r.gain.0,
      r.gain.1
          ∙ rw (e, take_past len t u le)
              (append_assoc (stream dest.first) t (take (len - length t) u)),
    );
    source = r.source;
    left = r.left ∙ sym (drop_past len t u le);
    in_same = r.in_same ∙ i;
  }

  Stolen-dropped :
      (dest dest' src src1 src' : Chunkqueue) (t u : List Octet) (len : ℕ)
      → length t ≡ 0
      → src1.bytes_in ≡ src.bytes_in
      → Stolen dest src1 u len dest' src'
      → Stolen dest src (t ++ u) len dest' src'
  Stolen-dropped dest dest' src src1 src' [] u len e i r = record {
    gain = r.gain;
    source = r.source;
    left = r.left;
    in_same = r.in_same ∙ i;
  }
  Stolen-dropped dest dest' src src1 src' (x ∷ t) u len e i r = absurd (omega (arith, e))

  steal_chain-Stolen :
      (dest src : Chunkqueue) (cs : List Chunk) (len : ℕ)
      → IsQueue dest
      → SourceState src cs
      → (dest' : Chunkqueue) × (src' : Chunkqueue) × (steal_chain h dest src cs len
          ≡ ok (dest', src'))
        × Stolen dest src (stream cs) len dest' src'
  unfolding steal_chain stream
  steal_chain-Stolen dest src [] len q k = (
    dest,
    record src { first = [] },
    refl,
    record {
      gain = rw (take-nil len) (Gains-nil dest q);
      source = SourceState-IsQueue src [] k;
      left = unfold stream in sym (drop-nil len);
      in_same = refl;
    },
  )
    where
      take-nil : (n : ℕ) → take {A = Octet} n [] ≡ []
      take-nil zero = refl
      take-nil (suc n) = refl
  steal_chain-Stolen dest src (c ∷ cs) len q k =
      let d = (k.chunks).0 in
      let n = chunk_remaining_length_lem d in
      let l = length-append (octets c) (stream cs) in
      let total : src.bytes_in ≡ src.bytes_out + (length (octets c) + length (stream cs)) =
        omega (arith, k.balance, l) in
      elim (Bool-cases (len == 0)) [
        | inl stop ↦
            let zero_left = ==→eq len 0 stop in
            (
              dest,
              record src { first = c ∷ cs },
              rw (n, stop) refl,
              record {
                gain = rw zero_left (Gains-nil dest q);
                source = SourceState-IsQueue src (c ∷ cs) k;
                left = rw zero_left (unfold stream in refl);
                in_same = refl;
              },
            )
        | inr go ↦ elim (Bool-cases (length (octets c) == 0)) [
          | inl bare ↦
              let (src1, run, cache, u, calls) =
                chunkqueue_push_unused_chunk_lem src c k.cache (Stores-IsSized d.stored)
                  (Stores-IsSized d.named) in
              let (dest', src', run2, r) = steal_chain-Stolen dest src1 cs len q (record {
                cache = cache;
                chunks = (k.chunks).1;
                balance = omega (arith, total, u.same_in, u.same_out, ==→eq _ 0 bare);
              }) in
              (
                dest',
                src',
                rw (n, go, bare, run) run2,
                Stolen-dropped dest dest' src src1 src' (octets c) (stream cs) len (==→eq _ 0 bare)
                    u.same_in r,
              )
          | inr full ↦ elim (Bool-cases (leb (length (octets c)) len)) [
            | inl whole ↦
                let (dest1, run, q1, e) = chunkqueue_append_chunk_lem dest c q d in
                let src1 = record src { bytes_out = src.bytes_out + length (octets c) } in
                let (dest', src', run2, r) =
                  steal_chain-Stolen dest1 src1 cs (len - length (octets c)) q1 (record {
                    cache = record {
                      cached = k.cache.cached;
                      counted = k.cache.counted;
                      bounded = k.cache.bounded;
                    };
                    chunks = (k.chunks).1;
                    balance = omega (arith, total);
                  }) in
                let grown : stream dest1.first ≡ stream dest.first ++ octets c =
                  ap stream e ∙ stream-append dest.first (c ∷ []) ∙ rw (stream_one c) refl in
                (
                  dest',
                  src',
                  rw (n, go, full, whole, run) run2,
                  Stolen-moved dest dest1 dest' src src1 src' (octets c) (stream cs) len
                      (leb→le _ _ whole) grown refl r,
                )
            | inr part ↦
                let less : len < length (octets c) = ground (arith, part) in
                let (dest', run, gain) = append_part-Gains dest c c.kind len q d less in
                let (e, o) = advance-IsChunk c len d (omega (arith, less)) in
                (
                  dest',
                  record src {
                    first = record c { offset = c.offset + len } ∷ cs;
                    bytes_out = src.bytes_out + len;
                  },
                  rw (n, go, full, part, run) refl,
                  record {
                    gain = rw (take_within len (octets c) (stream cs) (omega (arith, less))) gain;
                    source = record {
                      cache = record {
                        cached = k.cache.cached;
                        counted = k.cache.counted;
                        bounded = k.cache.bounded;
                      };
                      chunks = (e, (k.chunks).1);
                      balance = omega (
                        arith,
                        total,
                        less,
                        ap length (stream_cons (record c { offset = c.offset + len }) cs),
                        length-append (octets (record c { offset = c.offset + len })) (stream cs),
                        ap length o,
                        length-drop len (octets c),
                      );
                    };
                    left =
                        stream_cons (record c { offset = c.offset + len }) cs
                        ∙ ap (λ t. t ++ stream cs) o
                        ∙ sym (drop_within len (octets c) (stream cs) (omega (arith, less)));
                    in_same = refl;
                  },
                )
          ]
        ]
      ]

  -- With memory granted, where two queues keep their invariant, `chunkqueue_steal` returns, both
  -- keep it, the first `len` octets of the source (or all of them, where it has fewer) stand at the
  -- end of the target in their order, and the source has the others.
  pub chunkqueue_steal-moves :
      (dest src : Chunkqueue) (len : ℕ)
      → IsQueue dest
      → IsQueue src
      → (dest' : Chunkqueue) × (src' : Chunkqueue) × (chunkqueue_steal h dest src len
          ≡ ok (dest', src'))
        × Gains dest (take len (stream src.first)) dest'
        × IsQueue src'
        × (stream src'.first ≡ drop len (stream src.first))
  unfolding chunkqueue_steal
  chunkqueue_steal-moves dest src len q k =
      let (dest', src', run, r) =
        steal_chain-Stolen dest src src.first len q
          (record { cache = k.cache; chunks = k.chunks; balance = k.balance }) in
      (dest', src', run, r.gain, r.source, r.left)
