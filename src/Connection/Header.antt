-- ===== src/Connection/Header.antt =====
-- The loop that copies a request header out of a chain (src/connections.c).
use lighttpd.Base.{
  ℕ, ◌+◌, ◌-◌, ◌≤◌, ◌<◌, ◌≡◌, refl, sym, ap, ◌∙◌, inl, inr, true, false, List, [], ◌∷◌, ◌++◌,
  append_assoc, arith, ◌==◌, length, take, drop, length-append, take_all, length-take, All,
}
use lighttpd.Memory.{ok, Bytes, size_mod, Allocator}
use lighttpd.Buffer.{Buffer, string_length}
use lighttpd.Buffer.Holds.{Stores, string_length-Stores, string_of, string_of-Stores}
use lighttpd.Buffer.Write.{append_string_len_lem}
use lighttpd.Chunk.{Chunk, whole_length}
use lighttpd.Chunk.Octets.{
  mem_octets, stream, IsChunk, IsMem, length-mem_octets, mem_octets-append, length-drop, drop-drop,
  advance-IsChunk, drop_past, drop_within, take_past,
}
use lighttpd.Chunkqueue.LastChunk.{octets-mem}
use lighttpd.Chunkqueue.Steal.{take_within, take-drop-ptr}
use lighttpd.Connection.{copy_header}
use lighttpd.Connection.Extract.{flat_view, Placed, Placed-le}
use lighttpd.Connection.HeaderEnd.{view}

-- A chain in memory
pub record IsText (cs : List Chunk) : Type 0 where
  pub chunks : All IsChunk cs
  pub in_mem : All IsMem cs

pub IsText-stream : (cs : List Chunk) → All IsMem cs → stream cs ≡ mem_octets (flat_view cs)
unfolding stream flat_view mem_octets
IsText-stream [] m = refl
IsText-stream (c ∷ cs) m =
    rw (octets-mem c (m.0), IsText-stream cs (m.1))
      (sym (mem_octets-append (view c) (flat_view cs)))

view-advance : (c : Chunk) (n : ℕ) → view (record c { offset = c.offset + n }) ≡ drop n (view c)
view-advance c n = sym (drop-drop c.offset n (string_of c.mem))

-- A part of a chunk in memory, as the code takes it from the block
part_of :
    (c : Chunk) (n : ℕ)
    → IsChunk c
    → IsMem c
    → n ≤ length (view c)
    → (take n (drop c.offset c.mem.ptr) ≡ take n (view c))
      × IsChunk (record c { offset = c.offset + n })
part_of c n k m le =
    let text = string_of-Stores k.stored in
    let short = length-drop c.offset (string_of c.mem) in
    let within : c.offset ≤ length k.text =
      unfold whole_length in omega (arith, rw m at k.within, string_length-Stores k.stored) in
    let o = octets-mem c m in
    (
      take-drop-ptr c.mem k.text c.offset n k.stored
            (omega (arith, le, short, within, ap length text))
          ∙ ap (λ s. take n (drop c.offset s)) (sym text),
      (advance-IsChunk c n k (omega (arith, le, ap length o, length-mem_octets (view c)))).0,
    )

drop_all : (s : Bytes) → drop (length s) s ≡ []
drop_all [] = refl
drop_all (x ∷ s) = drop_all s

module _ (h : Allocator) (ample : (n : ℕ) → h.grants n ≡ true) where
  copied_here :
      (idx i o n : ℕ) (b : Buffer) (s : Bytes) (c : Chunk) (cs : List Chunk)
      → IsText (c ∷ cs)
      → (i ≡ idx) × (o ≡ 0 + n) × (n ≤ length (view c))
      → Stores b s
      → length s + 1 + n < size_mod
      → (b' : Buffer) × (cs' : List Chunk) × (copy_header h idx i o b (c ∷ cs) ≡ ok (b', cs', n))
        × Stores b' (s ++ take n (flat_view (c ∷ cs)))
        × IsText cs'
        × (flat_view cs' ≡ drop n (flat_view (c ∷ cs)))
  unfolding copy_header flat_view
  copied_here idx i o n b s c cs t (ei, eo, le) k lt =
      let (bytes, k') = part_of c n ((t.chunks).0) ((t.in_mem).0) le in
      let here : (idx == i) ≡ true = ground (arith, ei) in
      let off : o ≡ n = omega (arith, eo) in
      let short = length-take n (view c) le in
      let (b', run, holds) =
        append_string_len_lem h ample s (take n (view c)) k (omega (arith, lt, short)) in
      (
        b',
        record c { offset = c.offset + n } ∷ cs,
        ground (arith, here, off, bytes, run),
        inr (rw (take_within n (view c) (flat_view cs) le) holds),
        record { chunks = (k', (t.chunks).1); in_mem = t.in_mem },
        rw (view-advance c n) (sym (drop_within n (view c) (flat_view cs) le)),
      )

  pub copy_header_lem :
      (idx i o n : ℕ) (b : Buffer) (s : Bytes) (c : Chunk) (cs : List Chunk)
      → IsText (c ∷ cs)
      → Placed idx 0 (view c) cs i o n
      → Stores b s
      → length s + 1 + n < size_mod
      → (b' : Buffer) × (cs' : List Chunk) × (copy_header h idx i o b (c ∷ cs) ≡ ok (b', cs', n))
        × Stores b' (s ++ take n (flat_view (c ∷ cs)))
        × IsText cs'
        × (flat_view cs' ≡ drop n (flat_view (c ∷ cs)))
  unfolding copy_header flat_view
  copy_header_lem idx i o n b s c [] t p k lt = copied_here idx i o n b s c [] t p k lt
  copy_header_lem idx i o n b s c (d ∷ ds) t (inl p) k lt =
      copied_here idx i o n b s c (d ∷ ds) t p k lt
  copy_header_lem idx i o n b s c (d ∷ ds) t (inr (m, e, p)) k lt =
      let kc = (t.chunks).0 in
      let mc = (t.in_mem).0 in
      let l = length (view c) in
      let (bytes, k') = part_of c l kc mc (omega arith) in
      let not_last : (idx == i) ≡ false =
        ground (arith, Placed-le (idx + 1) 0 (view d) ds i o m p) in
      let len : string_length c.mem - c.offset ≡ l = omega (
        arith,
        string_length-Stores kc.stored,
        ap length (string_of-Stores kc.stored),
        length-drop c.offset (string_of c.mem),
      ) in
      let all : take l (view c) ≡ view c = take_all (view c) in
      let (b1, run, holds) = append_string_len_lem h ample s (view c) k (omega (arith, lt, e)) in
      let (b', cs', run2, stored, t', left) =
        copy_header_lem (idx + 1) i o m b1 (s ++ view c) d ds
          (record { chunks = (t.chunks).1; in_mem = (t.in_mem).1 }) p (inr holds)
          (omega (arith, lt, e, length-append s (view c))) in
      (
        b',
        record c { offset = c.offset + l } ∷ cs',
        ground (arith, not_last, len, bytes, all, run, run2, e),
        taken b' m e stored,
        record { chunks = (k', t'.chunks); in_mem = (mc, t'.in_mem) },
        dropped cs' m e left,
      )
    where
      taken :
          (b' : Buffer) (m : ℕ)
          → n ≡ length (view c) + m
          → Stores b' ((s ++ view c) ++ take m (flat_view (d ∷ ds)))
          → Stores b' (s ++ take n (view c ++ flat_view (d ∷ ds)))
      taken b' m e k =
          let rest : length (view c) + m - length (view c) ≡ m = omega arith in
          rw
            (
              e,
              take_past (length (view c) + m) (view c) (flat_view (d ∷ ds)) (omega arith),
              rest,
              ← append_assoc s (view c) (take m (flat_view (d ∷ ds))),
            )
            k

      dropped :
          (cs' : List Chunk) (m : ℕ)
          → n ≡ length (view c) + m
          → flat_view cs' ≡ drop m (flat_view (d ∷ ds))
          → view (record c { offset = c.offset + length (view c) }) ++ flat_view cs'
            ≡ drop n (view c ++ flat_view (d ∷ ds))
      dropped cs' m e left =
          let rest : length (view c) + m - length (view c) ≡ m = omega arith in
          rw
            (
              e,
              drop_past (length (view c) + m) (view c) (flat_view (d ∷ ds)) (omega arith),
              rest,
              view-advance c (length (view c)),
              drop_all (view c),
            )
            left
