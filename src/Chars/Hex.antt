-- ===== src/Chars/Hex.antt =====
-- `buffer_copy_string_hex` (src/buffer.c): what it writes, and how that reads.
use lighttpd.Base.{
  ℕ, ◌+◌, ◌*◌, ◌/◌, ◌<◌, ◌≡◌, refl, ap, ◌∙◌, inr, true, [], ◌∷◌, ◌++◌, arith, length, All,
}
use lighttpd.Memory.{ok, aborted, Bytes, size_mod, Allocator, store, memcpy}
use lighttpd.Buffer.{Buffer}
use lighttpd.Buffer.Holds.{IsSized, Holds, string_length-Stores}
use lighttpd.Buffer.Resize.{string_set_length_lem}
use lighttpd.Chars.{int2hex, hex2int, tohex, copy_string_hex, hex_of, tohex_from}
use lighttpd.Chars.Table.{hex2int-int2hex}
use lighttpd.Memory.Blocks.{store_at, memcpy_at, bind_ext}

tohex_from-memcpy :
    (m : Bytes) (i j : ℕ) (s : Bytes) → j ≡ 2 * i → tohex_from m i s ≡ memcpy m j (hex_of s)
unfolding tohex_from memcpy hex_of
tohex_from-memcpy m i j [] e = refl
tohex_from-memcpy m i j (c ∷ s) e = rw (← e) (
    bind_ext (store m j (int2hex (c / 16))) _ _ λ m'.
      bind_ext (store m' (j + 1) (int2hex c)) _ _
        λ m''. tohex_from-memcpy m'' (i + 1) (j + 1 + 1) s (omega (arith, e)))

pub length-hex_of : (s : Bytes) → length (hex_of s) ≡ 2 * length s
unfolding hex_of
length-hex_of [] = refl
length-hex_of (c ∷ s) = omega (arith, length-hex_of s)

module _ (h : Allocator) (ample : (n : ℕ) → h.grants n ≡ true) where
  -- With memory granted, and a buffer whose size field is that of its block,
  -- `buffer_copy_string_hex` of a nonempty string returns if twice its length and one fit a
  -- `size_t`, and the buffer then holds two digits for each byte.
  pub copy_string_hex_lem :
      (b : Buffer) (s : Bytes)
      → IsSized b
      → 0 < length s
      → 2 * length s + 1 < size_mod
      → (b' : Buffer) × (copy_string_hex h b s ≡ ok b') × Holds b' (hex_of s)
  unfolding copy_string_hex tohex
  copy_string_hex_lem b s z pos q =
      let (us, more, _, l, b1, run, k) = string_set_length_lem h ample b (2 * length s) z q in
      let n = string_length-Stores {b = b1} {s = us} (inr k) in
      let filled : tohex_from b1.ptr 0 s ≡ ok (hex_of s ++ (0 ∷ k.rest)) =
        tohex_from-memcpy b1.ptr 0 0 s refl
        ∙ rw k.layout
            (memcpy_at [] us (hex_of s) (0 ∷ k.rest) (omega (arith, l, length-hex_of s))) in
      let ended : store (hex_of s ++ (0 ∷ k.rest)) (2 * length s) 0
          ≡ ok (hex_of s ++ (0 ∷ k.rest)) =
        rw (← length-hex_of s) (store_at (hex_of s) k.rest 0 0) in
      (
        record b1 { ptr = hex_of s ++ (0 ∷ k.rest) },
        ground (arith, run, n, l, filled, ended),
        record {
          rest = k.rest;
          layout = refl;
          used_is = omega (arith, k.used_is, l, length-hex_of s);
          size_is = omega (arith, k.size_is, l, length-hex_of s);
          in_range = k.in_range;
        },
      )

  -- The overflow check of the source also refuses the empty string, which has no overflow.
  pub copy_string_hex-nil : (b : Buffer) → copy_string_hex h b [] ≡ aborted
  unfolding copy_string_hex
  copy_string_hex-nil b = refl

-- The bytes that a string of digits stands for
unfoldable pub unhex : Bytes → Bytes
unhex [] = []
unhex (a ∷ []) = []
unhex (a ∷ b ∷ s) = (hex2int a * 16 + hex2int b) ∷ unhex s

-- `hex2int` reads the digits of any string of bytes back.
pub unhex-hex_of : (s : Bytes) → All (λ c. c < 256) s → unhex (hex_of s) ≡ s
unfolding hex_of unhex
unhex-hex_of [] h = refl
unhex-hex_of (c ∷ s) (lt, h) =
    rw (unhex-hex_of s h)
      (ap (λ (x : ℕ). x ∷ s) (omega (arith, hex2int-int2hex (c / 16), hex2int-int2hex c)))
