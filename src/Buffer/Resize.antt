-- ===== src/Buffer/Resize.antt =====
-- `buffer_string_set_length`, `buffer_reset` and `buffer_move`.
use mathlib.Core.Path.{subst}
use lighttpd.Base.{
  ℕ, ◌+◌, ◌-◌, ◌≤◌, ◌<◌, ◌≡◌, refl, sym, ap, ◌∙◌, inl, inr, true, [], ◌∷◌, ◌++◌, append-nil,
  append_assoc, arith, ltb, leb, Bool-cases, length, take, length-append, take-length, take-append,
  split_at,
}
use lighttpd.Memory.{ok, Bytes, size_mod, Allocator, fresh, store}
use lighttpd.Buffer.{
  Buffer, init, buffer_max_reuse_size, reset, move, align_size, realloc, string_set_length,
}
use lighttpd.Buffer.Holds.{IsSized, Holds, Stores, Holds-IsSized, align_size_bounds}
use lighttpd.Memory.Blocks.{length-fresh, store_at}

module _ (h : Allocator) (ample : (n : ℕ) → h.grants n ≡ true) where
  realloc_sized :
      (b : Buffer) (n : ℕ)
      → IsSized b
      → 0 < n
      → n < size_mod
      → (more : Bytes) × (size : ℕ) × (realloc h b n
          ≡ ok (record b { ptr = b.ptr ++ more; size = size }))
        × (n ≤ size)
        × (size < size_mod)
        × (size ≡ length (b.ptr ++ more))
  unfolding realloc
  realloc_sized b n z p q =
      let top = align_size n in
      let more = fresh h b.size (top - b.size) in
      elim (Bool-cases (leb n b.size)) [
        | inl enough ↦ (
          [],
          b.size,
          rw (append-nil b.ptr) (ground arith),
          ground arith,
          z.in_range,
          rw (append-nil b.ptr) z.size_is,
        )
        | inr small ↦ (
          more,
          top,
          ground (arith, ample top),
          (align_size_bounds n q).0,
          (align_size_bounds n q).1,
          ground (
            arith,
            z.size_is,
            length-append b.ptr more,
            length-fresh h b.size (top - b.size),
            align_size_bounds n q,
          ),
        )
      ]

  -- Setting the length writes one zero and keeps the bytes before it; new ones are arbitrary.
  pub string_set_length_lem :
      (b : Buffer) (n : ℕ)
      → IsSized b
      → n + 1 < size_mod
      → (us : Bytes) × (more : Bytes) × (us ≡ take n (b.ptr ++ more))
        × (length us ≡ n)
        × (b' : Buffer) × (string_set_length h b n ≡ ok b')
        × Holds b' us
  unfolding string_set_length
  string_set_length_lem b n z q =
      let (more, size, e, big, range, len) = realloc_sized b (n + 1) z (omega arith) q in
      let (us, x, vs, split, l) = split_at n (b.ptr ++ more) (omega arith) in
      let stored : store (b.ptr ++ more) n 0 ≡ ok (us ++ (0 ∷ vs)) =
        subst (λ (k : ℕ). store (b.ptr ++ more) k 0 ≡ ok (us ++ (0 ∷ vs))) l
          (rw split (store_at us vs x 0)) in
      (
        us,
        more,
        subst (λ (k : ℕ). us ≡ take k (b.ptr ++ more)) l (rw split (sym (take-length us (x ∷ vs)))),
        l,
        record { ptr = us ++ (0 ∷ vs); used = n + 1; size = size },
        ground (arith, e, stored),
        record {
          rest = vs;
          layout = refl;
          used_is = omega (arith, l);
          size_is = omega (arith, len, ap length split, length-append us (x ∷ vs));
          in_range = range;
        },
      )

  -- With memory granted, setting the length of a buffer that holds a string to at most the length
  -- of that string returns and keeps so many first bytes of it.
  pub string_set_length_truncates :
      {b : Buffer} (s : Bytes) (n : ℕ)
      → Holds b s
      → n ≤ length s
      → (b' : Buffer) × (string_set_length h b n ≡ ok b') × Holds b' (take n s)
  string_set_length_truncates {b} s n k le =
      let (us, more, e, l, b', run, done) =
        string_set_length_lem b n (Holds-IsSized k) (omega (arith, k.size_is, k.in_range)) in
      let kept : us ≡ take n s =
        e
        ∙ rw (k.layout, append_assoc s (0 ∷ k.rest) more)
            (take-append s ((0 ∷ k.rest) ++ more) n le) in
      (b', run, rw kept at done)

-- After a reset the buffer is in the special empty state, and large blocks are given back.
pub reset_lem :
    (b : Buffer)
    → IsSized b
    → (b' : Buffer) × (reset b ≡ ok b')
      × IsSized b'
      × (b'.used ≡ 0)
      × (b'.size ≤ buffer_max_reuse_size)
      × (b'.size ≤ b.size)
unfolding reset
reset_lem b z = elim (Bool-cases (ltb buffer_max_reuse_size b.size)) [
  | inl big ↦ (
    init,
    ground arith,
    record { size_is = refl; in_range = omega arith },
    refl,
    omega arith,
    omega arith,
  )
  | inr small ↦ elim (Bool-cases (ltb 0 b.size)) [
    | inl some_room ↦
        let (us, x, vs, split, l) = split_at 0 b.ptr (ground (arith, z.size_is)) in
        let us-nil : us ≡ [] = ground (arith, l) in
        let e : b.ptr ≡ x ∷ vs = rw us-nil at split in
        let stored : store b.ptr 0 0 ≡ ok (0 ∷ vs) = rw e (unfold store in refl) in
        (
          record b { ptr = 0 ∷ vs; used = 0 },
          ground (arith, stored),
          record { size_is = omega (arith, z.size_is, ap length e); in_range = z.in_range },
          refl,
          ground arith,
          omega arith,
        )
    | inr none_left ↦ (
      record b { used = 0 },
      ground arith,
      record { size_is = z.size_is; in_range = z.in_range },
      refl,
      ground arith,
      omega arith,
    )
  ]
]

-- Where the source stores a string and the size field of the target is that of its block,
-- `buffer_move` returns, the target then stores the string, and the source stores the empty string
-- and has a size of at most 4096.
pub move_lem :
    (b src : Buffer) (s : Bytes)
    → IsSized b
    → Stores src s
    → (b' : Buffer) × (src' : Buffer) × (move b src ≡ ok (b', src'))
      × Stores b' s
      × Stores src' []
      × (src'.size ≤ buffer_max_reuse_size)
unfolding move
move_lem b src s z k =
    let (old, e, z', u, small, le) = reset_lem b z in
    (src, old, rw e refl, k, inl (z', u, refl), small)
