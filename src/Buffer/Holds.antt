-- ===== src/Buffer/Holds.antt =====
-- What a buffer of src/buffer.c stands for: a string, followed by its zero and by unused bytes.
use lighttpd.Base.{
  ℕ, ◌+◌, ◌-◌, ◌≤◌, ◌<◌, ◌≡◌, refl, ◌⊎◌, inl, inr, [], ◌∷◌, ◌++◌, arith, ◌==◌, length, take,
  length-append, take-length,
}
use lighttpd.Memory.{ok, Bytes, size_mod, load}
use lighttpd.Buffer.{Buffer, string_length, string_is_empty, align_size}
use lighttpd.Memory.Blocks.{load_at}

-- The block has the size that the buffer records.
pub record IsSized (b : Buffer) : Type 0 where
  pub size_is : b.size ≡ length b.ptr
  pub in_range : b.size < size_mod

pub record Holds (b : Buffer) (s : Bytes) : Type 0 where
  pub rest : Bytes
  pub layout : b.ptr ≡ s ++ (0 ∷ rest)
  pub used_is : b.used ≡ length s + 1
  pub size_is : b.size ≡ length s + 1 + length rest
  pub in_range : b.size < size_mod

-- The special empty state, or a string.
abbrev pub Stores : Buffer → Bytes → Type 0
Stores b s = (IsSized b × (b.used ≡ 0) × (s ≡ [])) ⊎ Holds b s

pub Holds-IsSized : {b : Buffer} {s : Bytes} → Holds b s → IsSized b
Holds-IsSized {b} {s} k = record {
  size_is = rw k.layout (omega (arith, k.size_is, length-append s (0 ∷ k.rest)));
  in_range = k.in_range;
}

pub Stores-IsSized : {b : Buffer} {s : Bytes} → Stores b s → IsSized b
Stores-IsSized (inl u) = u.0
Stores-IsSized (inr k) = Holds-IsSized k

-- Rounding up never loses room, and never passes the range of `size_t`.
pub align_size_bounds : (n : ℕ) → n < size_mod → (n ≤ align_size n) × (align_size n < size_mod)
unfolding align_size
align_size_bounds n h = ground arith

pub string_length-Stores : {b : Buffer} {s : Bytes} → Stores b s → string_length b ≡ length s
unfolding string_length
string_length-Stores (inl u) = ground arith
string_length-Stores (inr k) = ground (arith, k.used_is)

pub string_is_empty-Stores :
    {b : Buffer} {s : Bytes} → Stores b s → string_is_empty b ≡ (length s == 0)
unfolding string_is_empty
string_is_empty-Stores k = rw (string_length-Stores k)

pub length-eq-zero : (s : Bytes) → length s ≡ 0 → s ≡ []
length-eq-zero s e = ground arith

pub Holds-unset : {b : Buffer} {s : Bytes} → Holds b s → IsSized (record b { used = 0 })
Holds-unset k = record { size_is = (Holds-IsSized k).size_is; in_range = k.in_range }

-- The bytes of a buffer up to the terminating zero
abbrev pub string_of : Buffer → Bytes
string_of b = take (string_length b) b.ptr

pub string_of-Stores : {b : Buffer} {s : Bytes} → Stores b s → string_of b ≡ s
string_of-Stores {b} {s} (inl u) = rw (string_length-Stores {b = b} {s = s} (inl u), u.2) refl
string_of-Stores {b} {s} (inr k) =
    rw (string_length-Stores {b = b} {s = s} (inr k), k.layout) (take-length s (0 ∷ k.rest))

pub string_of_lem : (b : Buffer) (s : Bytes) → Holds b s → take (b.used - 1) b.ptr ≡ s
string_of_lem b s k =
    let n : b.used - 1 ≡ length s = omega (arith, k.used_is) in
    rw n (rw k.layout (take-length s (0 ∷ k.rest)))

-- The byte that `force_assert('\0' == b->ptr[b->used - 1])` looks at
pub load_terminator : {b : Buffer} {s : Bytes} → Holds b s → load b.ptr (b.used - 1) ≡ ok 0
load_terminator {b} {s} k =
    let n : b.used - 1 ≡ length s = omega (arith, k.used_is) in
    rw n (rw k.layout (load_at s k.rest 0))
