-- ===== src/Buffer/Slash.antt =====
-- `buffer_append_slash` of src/buffer.h.
use lighttpd.Base.{
  ℕ, ◌+◌, ◌-◌, ◌<◌, ◌≡◌, refl, ap, ◌⊎◌, inl, inr, true, [], ◌∷◌, ◌++◌, append_assoc, arith, ◌==◌,
  if◌then◌else◌, Bool-cases, length, length-append,
}
use lighttpd.Memory.{ok, Bytes, size_mod, Allocator, load}
use lighttpd.Buffer.{Buffer, append_slash}
use lighttpd.Buffer.Holds.{Holds, Stores, string_length-Stores}
use lighttpd.Buffer.Write.{append_string_len_lem}
use lighttpd.Memory.Blocks.{load_at}

-- The last byte is a slash, or one more is appended.
abbrev pub with_slash : Bytes → Bytes
with_slash [] = []
with_slash (c ∷ []) = if c == b'/' then c ∷ [] else c ∷ b'/' ∷ []
with_slash (c ∷ d ∷ s) = c ∷ with_slash (d ∷ s)

with_slash-concat :
    (us : Bytes) (x : ℕ)
    → with_slash (us ++ (x ∷ []))
      ≡ (if x == b'/' then us ++ (x ∷ []) else us ++ (x ∷ []) ++ (b'/' ∷ []))
with_slash-concat [] x = refl
with_slash-concat (c ∷ []) x = ground arith
with_slash-concat (c ∷ d ∷ us) x = ground (arith, with_slash-concat (d ∷ us) x)

last_cases : (s : Bytes) → (s ≡ []) ⊎ ((us : Bytes) × (x : ℕ) × (s ≡ us ++ (x ∷ [])))
last_cases [] = inl refl
last_cases (c ∷ []) = inr ([], c, refl)
last_cases (c ∷ d ∷ s) = elim (last_cases (d ∷ s)) [
  | inl e ↦ cc
  | inr (us, x, e) ↦ inr (c ∷ us, x, ap (◌∷◌ c) e)
]

held : {b : Buffer} (us : Bytes) (x : ℕ) → Stores b (us ++ (x ∷ [])) → Holds b (us ++ (x ∷ []))
held [] x (inl u) = cc (u.2)
held (c ∷ us) x (inl u) = cc (u.2)
held us x (inr k) = k

load_last :
    {b : Buffer} (us : Bytes) (x : ℕ)
    → Holds b (us ++ (x ∷ []))
    → load b.ptr (length (us ++ (x ∷ [])) - 1) ≡ ok x
load_last us x k =
    let n : length (us ++ (x ∷ [])) - 1 ≡ length us = omega (arith, length-append us (x ∷ [])) in
    rw (n, k.layout, append_assoc us (x ∷ []) (0 ∷ k.rest)) (load_at us (0 ∷ k.rest) x)

module _ (h : Allocator) (ample : (n : ℕ) → h.grants n ≡ true) where
  append_slash_last :
      {b : Buffer} (us : Bytes) (x : ℕ)
      → Holds b (us ++ (x ∷ []))
      → length (us ++ (x ∷ [])) + 2 < size_mod
      → (b' : Buffer) × (append_slash h b ≡ ok b') × Stores b' (with_slash (us ++ (x ∷ [])))
  unfolding append_slash
  append_slash_last {b} us x k q =
      let (b', e, done) =
        append_string_len_lem h ample (us ++ (x ∷ [])) (b'/' ∷ []) (inr k) (omega arith) in
      let n = string_length-Stores {b = b} {s = us ++ (x ∷ [])} (inr k) in
      elim (Bool-cases (x == b'/')) [
        | inl y ↦ (
          b,
          ground (arith, n, load_last us x k, length-append us (x ∷ [])),
          rw (with_slash-concat us x, y) (inr k),
        )
        | inr z ↦ (
          b',
          ground (arith, n, load_last us x k, e, length-append us (x ∷ [])),
          rw (with_slash-concat us x, z) (inr done),
        )
      ]

  -- With memory granted, where a buffer stores a string whose length fits a `size_t` with two
  -- bytes more, `buffer_append_slash` returns, and the buffer then stores the string with a slash
  -- behind it if it is nonempty and does not end in one, and the same string otherwise.
  pub append_slash_lem :
      {b : Buffer} (s : Bytes)
      → Stores b s
      → length s + 2 < size_mod
      → (b' : Buffer) × (append_slash h b ≡ ok b') × Stores b' (with_slash s)
  append_slash_lem {b} s k q = elim (last_cases s) [
    | inl e ↦ (
      b,
      unfold append_slash in ground (arith, string_length-Stores {b = b} {s = s} k, e),
      rw e (rw e at k),
    )
    | inr (us, x, e) ↦ rw e (append_slash_last us x (held us x (rw e at k)) (rw e at q))
  ]
