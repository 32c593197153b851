-- ===== src/Buffer/Write.antt =====
-- Copying and appending (src/buffer.c), and the same operations on strings.
use lighttpd.Base.{
  ℕ, suc, ◌+◌, ◌<◌, ◌≡◌, refl, sym, ap, inl, inr, true, [], ◌∷◌, ◌++◌, append-nil, append_assoc,
  arith, length, length-append, split_at,
}
use lighttpd.Memory.{ok, Bytes, size_mod, Allocator, load, store, memcpy}
use lighttpd.Buffer.{
  Buffer, is_empty, commit, copy_string_len, copy_buffer, append_string_len, append_string_buffer,
}
use lighttpd.Buffer.Holds.{IsSized, Holds, Stores, Holds-unset, string_of-Stores, string_of_lem}
use lighttpd.Buffer.Room.{HasRoom, string_prepare_copy_lem, string_prepare_append_lem}
use lighttpd.Memory.Blocks.{load_at, store_at, memcpy_at}

-- The terminating zero goes behind what was written.
pub commit_lem :
    (b : Buffer) (s t : Bytes) (x : ℕ) (vs : Bytes)
    → b.ptr ≡ s ++ (t ++ (x ∷ vs))
    → b.used ≡ length s + 1
    → b.size ≡ length s + length t + 1 + length vs
    → b.size < size_mod
    → commit b (length t)
      ≡ ok (record b { ptr = (s ++ t) ++ (0 ∷ vs); used = length s + length t + 1 })
unfolding commit
commit_lem b s t x vs layout u z r =
    let at : store b.ptr (length s + length t) 0 ≡ ok ((s ++ t) ++ (0 ∷ vs)) =
      rw (layout, ← append_assoc s t (x ∷ vs), ← length-append s t) (store_at (s ++ t) vs x 0) in
    ground (arith, u, z, at)

-- Writing a string where there is room for it, and committing it.
pub write_lem :
    {b : Buffer} {s : Bytes} (t : Bytes)
    → HasRoom b s (length t)
    → (m : Bytes) × (memcpy b.ptr (length s) t ≡ ok m)
      × (b' : Buffer) × (commit (record b { ptr = m }) (length t) ≡ ok b')
      × Holds b' (s ++ t)
write_lem {b} {s} t k =
    let (us, x, vs, split, l) = split_at (length t) (0 ∷ k.holds.rest) (omega (arith, k.room)) in
    let size : b.size ≡ length s + length t + 1 + length vs =
      omega (arith, k.holds.size_is, ap length split, length-append us (x ∷ vs)) in
    (
      s ++ (t ++ (x ∷ vs)),
      rw (k.holds.layout, split) (memcpy_at s us t (x ∷ vs) l),
      record b { ptr = (s ++ t) ++ (0 ∷ vs); used = length s + length t + 1 },
      commit_lem (record b { ptr = s ++ (t ++ (x ∷ vs)) }) s t x vs refl k.holds.used_is size
          k.holds.in_range,
      record {
        rest = vs;
        layout = refl;
        used_is = omega (arith, length-append s t);
        size_is = omega (arith, size, length-append s t);
        in_range = k.holds.in_range;
      },
    )

-- Committing room first and filling it afterwards: the byte at the old terminating zero is still
-- zero, and the filled buffer holds both strings.
pub reserve_lem :
    {b : Buffer} {s : Bytes} (t : Bytes)
    → HasRoom b s (length t)
    → 0 < length t
    → (b' : Buffer) × (commit b (length t) ≡ ok b')
      × (load b'.ptr (length s) ≡ ok 0)
      × (m : Bytes) × (memcpy b'.ptr (length s) t ≡ ok m)
      × Holds (record b' { ptr = m }) (s ++ t)
reserve_lem {b} {s} [] k pos = absurd (omega arith)
reserve_lem {b} {s} (c ∷ t) k pos =
    let (us, x, vs, split, l) = split_at (length t) k.holds.rest (omega (arith, k.room)) in
    let layout : b.ptr ≡ s ++ ((0 ∷ us) ++ (x ∷ vs)) = rw k.holds.layout (rw split) in
    let size : b.size ≡ length s + length (c ∷ t) + 1 + length vs =
      omega (arith, k.holds.size_is, ap length split, length-append us (x ∷ vs)) in
    let done =
      commit_lem b s (0 ∷ us) x vs layout k.holds.used_is (omega (arith, size)) k.holds.in_range in
    (
      record b { ptr = (s ++ (0 ∷ us)) ++ (0 ∷ vs); used = length s + length (c ∷ t) + 1 },
      rw l at done,
      rw (append_assoc s (0 ∷ us) (0 ∷ vs)) (load_at s (us ++ (0 ∷ vs)) 0),
      s ++ ((c ∷ t) ++ (0 ∷ vs)),
      rw (append_assoc s (0 ∷ us) (0 ∷ vs)) (memcpy_at s (0 ∷ us) (c ∷ t) (0 ∷ vs) (ap suc l)),
      record {
        rest = vs;
        layout = sym (append_assoc s (c ∷ t) (0 ∷ vs));
        used_is = omega (arith, length-append s (c ∷ t));
        size_is = omega (arith, size, length-append s (c ∷ t));
        in_range = k.holds.in_range;
      },
    )

module _ (h : Allocator) (ample : (n : ℕ) → h.grants n ≡ true) where
  -- With memory granted, where a buffer stores a string and the new length fits a `size_t`,
  -- `buffer_append_string_len` returns, and the buffer then holds the old string followed by the
  -- new one and a zero.
  pub append_string_len_lem :
      {b : Buffer} (s t : Bytes)
      → Stores b s
      → length s + 1 + length t < size_mod
      → (b' : Buffer) × (append_string_len h b t ≡ ok b') × Holds b' (s ++ t)
  unfolding append_string_len
  append_string_len_lem {b} s [] k q =
      let (b', e, room) = string_prepare_append_lem h ample s 0 k q in
      (b', rw e refl, rw append-nil room.holds)
  append_string_len_lem {b} s (c ∷ t) k q =
      let (b1, e, room) = string_prepare_append_lem h ample s (length (c ∷ t)) k q in
      let (m, e2, b', e3, done) = write_lem (c ∷ t) room in (b', ground (arith, e, e2, e3), done)

  pub copy_string_len_lem :
      (b : Buffer) (t : Bytes)
      → IsSized b
      → length t + 1 < size_mod
      → (b' : Buffer) × (copy_string_len h b t ≡ ok b') × Holds b' t
  unfolding copy_string_len
  copy_string_len_lem b t z q =
      let (b1, e, room) = string_prepare_copy_lem h ample b (length t) z q in
      let (m, e2, b', e3, done) = write_lem t room in (b', ground (arith, e, e2, e3), done)

  -- With memory granted, and a target whose size field is that of its block, `buffer_copy_buffer`
  -- from another buffer that stores a string returns, and the target then stores the same string;
  -- it is in the special empty state exactly when the source is.
  pub copy_buffer_lem :
      (b : Buffer) {src : Buffer} (t : Bytes)
      → IsSized b
      → Stores src t
      → (b' : Buffer) × (copy_buffer h b src ≡ ok b') × Stores b' t × (is_empty b' ≡ is_empty src)
  unfolding copy_buffer is_empty
  copy_buffer_lem b t z (inl (zs, u, n)) =
      let (b1, e, room) = string_prepare_copy_lem h ample b 0 z (omega arith) in
      (
        record b1 { used = 0 },
        ground (arith, u, e),
        inl (Holds-unset room.holds, refl, n),
        ground (arith, u),
      )
  copy_buffer_lem b {src} t z (inr k) =
      let (b', e, done) = copy_string_len_lem b t z (omega (arith, k.size_is, k.in_range)) in
      (
        b',
        ground (arith, k.used_is, e, string_of_lem src t k),
        inr done,
        ground (arith, k.used_is, done.used_is),
      )

  pub append_string_buffer_lem :
      {b src : Buffer} (s t : Bytes)
      → Stores b s
      → Stores src t
      → length s + 1 + length t < size_mod
      → (b' : Buffer) × (append_string_buffer h b src ≡ ok b') × Holds b' (s ++ t)
  unfolding append_string_buffer
  append_string_buffer_lem s t k ks q =
      let (b', e, done) = append_string_len_lem s t k q in (b', rw (string_of-Stores ks) e, done)
