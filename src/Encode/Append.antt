-- ===== src/Encode/Append.antt =====
-- The two loops of the encoders (src/buffer.c): the room counted, and the filling.
use lighttpd.Base.{
  ℕ, ◌+◌, ◌<◌, ◌≡◌, refl, sym, ◌∙◌, inr, true, [], ◌∷◌, ◌++◌, append-nil, arith, length,
  length-append,
}
use lighttpd.Memory.{ok, Bytes, size_mod, add_size, Allocator, memcpy}
use lighttpd.Buffer.{Buffer}
use lighttpd.Buffer.Holds.{Stores}
use lighttpd.Buffer.Room.{string_prepare_append_lem}
use lighttpd.Buffer.Write.{reserve_lem}
use lighttpd.Encode.{count_each, write_each, append_each, flat}
use lighttpd.Memory.Blocks.{bind_ext, memcpy-append}

length-flat_cons :
    (f : ℕ → Bytes) (c : ℕ) (s : Bytes) → length (flat f (c ∷ s)) ≡ length (f c) + length (flat f s)
unfolding flat
length-flat_cons f c s = length-append (f c) (flat f s)

-- With no wrap-around the count is the length of what will be written.
count_each-flat :
    (w : ℕ → ℕ) (f : ℕ → Bytes) (n : ℕ) (s : Bytes)
    → ((c : ℕ) → w c ≡ length (f c))
    → n + length (flat f s) < size_mod
    → count_each w n s ≡ n + length (flat f s)
unfolding count_each flat
count_each-flat w f n [] e q = omega arith
count_each-flat w f n (c ∷ s) e q =
    let l = length-append (f c) (flat f s) in
    let step : add_size n (w c) ≡ n + length (f c) = omega (arith, l, e c) in
    rw step (omega (arith, l, count_each-flat w f (n + length (f c)) s e (omega (arith, l))))

pub write_each-memcpy :
    (f : ℕ → Bytes) (m : Bytes) (i : ℕ) (s : Bytes) → write_each f m i s ≡ memcpy m i (flat f s)
unfolding write_each flat memcpy
write_each-memcpy f m i [] = refl
write_each-memcpy f m i (c ∷ s) =
    bind_ext (memcpy m i (f c)) _ _ (λ m'. write_each-memcpy f m' (i + length (f c)) s)
    ∙ sym (memcpy-append m i (f c) (flat f s))

module _ (h : Allocator) (ample : (n : ℕ) → h.grants n ≡ true) where
  pub append_each_lem :
      {b : Buffer} (w : ℕ → ℕ) (f : ℕ → Bytes) (s t : Bytes)
      → ((c : ℕ) → w c ≡ length (f c))
      → ((c : ℕ) → 0 < w c)
      → Stores b s
      → length s + 1 + length (flat f t) < size_mod
      → (b' : Buffer) × (append_each h w f b t ≡ ok b') × Stores b' (s ++ flat f t)
  unfolding append_each
  append_each_lem {b} w f s [] e pos k q = (b, refl, unfold flat in rw append-nil k)
  append_each_lem {b} w f s (c ∷ t) e pos k q =
      let n = count_each-flat w f 0 (c ∷ t) e (omega arith) in
      let n' : count_each w 0 (c ∷ t) ≡ length (flat f (c ∷ t)) = omega (arith, n) in
      let (b1, run, room) = string_prepare_append_lem h ample s (length (flat f (c ∷ t))) k q in
      let more : 0 < length (flat f (c ∷ t)) = omega (arith, length-flat_cons f c t, pos c, e c) in
      let (b2, run2, zero_there, m, run3, done) = reserve_lem (flat f (c ∷ t)) room more in
      (
        record b2 { ptr = m },
        ground
            (arith, n', run, run2, zero_there, write_each-memcpy f b2.ptr (length s) (c ∷ t), run3),
        inr done,
      )
