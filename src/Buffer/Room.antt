-- ===== src/Buffer/Room.antt =====
-- Getting room in a buffer, and writing into it.
use lighttpd.Base.{
  ℕ, ◌+◌, ◌-◌, ◌≤◌, ◌<◌, ◌≡◌, refl, ap, ◌∙◌, inl, inr, true, [], ◌∷◌, ◌++◌, append_assoc, arith,
  leb, lt→ltb, Bool-cases, length, length-append, split_at,
}
use lighttpd.Memory.{ok, Bytes, size_mod, add_size, Allocator, fresh, store}
use lighttpd.Buffer.{Buffer, align_size, alloc, realloc, string_prepare_copy, string_prepare_append}
use lighttpd.Buffer.Holds.{
  IsSized, Holds, Stores, Stores-IsSized, align_size_bounds, string_is_empty-Stores,
}
use lighttpd.Memory.Blocks.{length-fresh}

pub add_size_lem : (a b : ℕ) → a + b < size_mod → add_size a b ≡ a + b
add_size_lem a b h = omega arith

-- A buffer that holds `s`, with room for `n` more bytes before the zero.
pub record HasRoom (b : Buffer) (s : Bytes) (n : ℕ) : Type 0 where
  pub holds : Holds b s
  pub room : n ≤ length holds.rest

module _ (h : Allocator) (ample : (n : ℕ) → h.grants n ≡ true) where
  alloc_lem :
      (b : Buffer) (n : ℕ)
      → IsSized b
      → 0 < n
      → n < size_mod
      → (b' : Buffer) × (alloc h b n ≡ ok b') × IsSized b' × (n ≤ b'.size)
  unfolding alloc
  alloc_lem b n z p q = elim (Bool-cases (leb n b.size)) [
    | inl enough ↦ (b, ground arith, z, ground arith)
    | inr small ↦ (
      record { ptr = fresh h 0 (align_size n); used = 0; size = align_size n },
      ground (arith, ample (align_size n)),
      record {
        size_is = omega (arith, length-fresh h 0 (align_size n));
        in_range = (align_size_bounds n q).1;
      },
      (align_size_bounds n q).0,
    )
  ]

  realloc_lem :
      (b : Buffer) (s : Bytes) (n : ℕ)
      → Holds b s
      → length s + 1 + n < size_mod
      → (b' : Buffer) × (realloc h b (length s + 1 + n) ≡ ok b') × HasRoom b' s n
  unfolding realloc
  realloc_lem b s n k q =
      let need = length s + 1 + n in
      let top = align_size need in
      let more = fresh h b.size (top - b.size) in
      elim (Bool-cases (leb need b.size)) [
        | inl enough ↦ (b, ground arith, record { holds = k; room = ground (arith, k.size_is) })
        | inr small ↦ (
          record b { ptr = b.ptr ++ more; size = top },
          ground (arith, ample top),
          record {
            holds = record {
              rest = k.rest ++ more;
              layout = ap (λ m. m ++ more) k.layout ∙ append_assoc s (0 ∷ k.rest) more;
              used_is = k.used_is;
              size_is = ground (
                arith,
                k.size_is,
                length-append k.rest more,
                length-fresh h b.size (top - b.size),
                align_size_bounds need q,
              );
              in_range = (align_size_bounds need q).1;
            };
            room = ground (
              arith,
              k.size_is,
              length-append k.rest more,
              length-fresh h b.size (top - b.size),
              align_size_bounds need q,
            );
          },
        )
      ]

  pub string_prepare_copy_lem :
      (b : Buffer) (n : ℕ)
      → IsSized b
      → n + 1 < size_mod
      → (b' : Buffer) × (string_prepare_copy h b n ≡ ok (b', 0)) × HasRoom b' [] n
  unfolding string_prepare_copy
  string_prepare_copy_lem b n z q =
      let (b', e, z', big) = alloc_lem b (n + 1) z (omega arith) q in
      let (us, x, vs, split, l) = split_at 0 b'.ptr (omega (arith, z'.size_is)) in
      let us-nil : us ≡ [] = ground (arith, l) in
      let e' : b'.ptr ≡ x ∷ vs = rw us-nil at split in
      (
        record b' { used = 1; ptr = 0 ∷ vs },
        rw (add_size_lem n 1 q, lt→ltb n (n + 1) (omega arith), e, e') (unfold store in refl),
        record {
          holds = record {
            rest = vs;
            layout = refl;
            used_is = refl;
            size_is = omega (arith, z'.size_is, ap length e');
            in_range = z'.in_range;
          };
          room = omega (arith, z'.size_is, ap length e');
        },
      )

  pub string_prepare_append_lem :
      {b : Buffer} (s : Bytes) (n : ℕ)
      → Stores b s
      → length s + 1 + n < size_mod
      → (b' : Buffer) × (string_prepare_append h b n ≡ ok (b', length s)) × HasRoom b' s n
  unfolding string_prepare_append
  string_prepare_append_lem {b} [] n k q =
      rw (string_is_empty-Stores k) (string_prepare_copy_lem b n (Stores-IsSized k) (omega arith))
  string_prepare_append_lem (c ∷ s) n (inl u) q = cc (u.2)
  string_prepare_append_lem {b} (c ∷ s) n (inr k) q =
      let (b', e, room) = realloc_lem b (c ∷ s) n k q in
      (
        b',
        ground (
          arith,
          string_is_empty-Stores {b = b} {s = c ∷ s} (inr k),
          k.used_is,
          e,
          room.holds.used_is,
        ),
        room,
      )
