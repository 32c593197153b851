-- ===== src/Url/RoundTrip.antt =====
-- Decoding after one of the URI encodings of src/buffer.c.
use lighttpd.Base.{
  ℕ, ◌+◌, ◌/◌, ◌%◌, ◌≤◌, ◌<◌, ◌≡◌, refl, ap, ◌∙◌, ◌≢◌, inl, inr, Bool, true, false, not, ◌&&◌, ◌||◌,
  some, [], ◌∷◌, arith, ◌==◌, ==→eq, Bool-cases, length, All, all,
}
use lighttpd.Memory.{ok, Bytes, size_mod, Allocator}
use lighttpd.Buffer.{Buffer}
use lighttpd.Buffer.Holds.{IsSized, Stores}
use lighttpd.Chars.{int2hex}
use lighttpd.Chars.Table.{passes, on_bytes, of_bytes, hex2int-int2hex}
use lighttpd.Encode.{
  Encoding, rel_uri, rel_uri_part, is_mapped, encode_byte, append_string_encoded, flat,
}
use lighttpd.Encode.Safe.{append_string_encoded_lem, all-flat}
use lighttpd.Url.{printable, joined, urldecode_internal}
use lighttpd.Url.Decode.{until_nul, escape_value, decode, decode_escape, decode_plain}
use lighttpd.Url.InPlace.{urldecode_internal_lem}

-- The bytes that the decoder does not map to `_`
abbrev pub IsTextByte : ℕ → Type 0
IsTextByte c = (c < 256) × (32 ≤ c) × (c ≢ 127)

joined_table : on_bytes (λ c. joined (c / 16 % 16) (c % 16) == c) ≡ true
unfolding passes joined
joined_table = refl

escape_value-hex_pair :
    (c : ℕ) → IsTextByte c → escape_value (int2hex (c / 16)) (int2hex c) ≡ some c
unfolding escape_value printable
escape_value-hex_pair c (lt, lo, ne) =
    let j = ==→eq _ _ (of_bytes _ joined_table c lt) in
    ground (arith, j, hex2int-int2hex (c / 16), hex2int-int2hex c)

-- What an encoding must do for its output to be read back
abbrev Escapes : Encoding → Type 0
Escapes e =
    ((c : ℕ) → is_mapped e c ≡ true → encode_byte e c ≡ b'%' ∷ int2hex (c / 16) ∷ int2hex c ∷ [])
    × (on_bytes (λ c. is_mapped e c || (not (c == b'%') && not (c == b'+'))) ≡ true)
    × (on_bytes (λ c. all (λ d. not (d == 0)) (encode_byte e c)) ≡ true)

rel_uri-Escapes : Escapes rel_uri
unfolding passes is_mapped encode_byte
rel_uri-Escapes = (λ c h. rw h, refl, refl)

rel_uri_part-Escapes : Escapes rel_uri_part
unfolding passes is_mapped encode_byte
rel_uri_part-Escapes = (λ c h. rw h, refl, refl)

until_nul_id : (s : Bytes) → all (λ d. not (d == 0)) s ≡ true → until_nul s ≡ s
unfolding until_nul
until_nul_id [] h = refl
until_nul_id (c ∷ s) h = ground (arith, until_nul_id s)

encode_byte_unmapped : (e : Encoding) (c : ℕ) → is_mapped e c ≡ false → encode_byte e c ≡ c ∷ []
unfolding encode_byte
encode_byte_unmapped e c h = rw h

decode-flat :
    (q : Bool) (e : Encoding) (s : Bytes)
    → Escapes e
    → All IsTextByte s
    → decode q (flat (encode_byte e) s) ≡ s
unfolding flat
decode-flat q e [] k h = unfold decode in refl
decode-flat q e (c ∷ s) k (t, h) =
    let rest = decode-flat q e s k h in
    elim (Bool-cases (is_mapped e c)) [
      | inl y ↦ rw (k.0 c y) (
          decode_escape q b'%' _ _ (flat (encode_byte e) s) (escape_value-hex_pair c t)
          ∙ ap (◌∷◌ c) rest)
      | inr n ↦
          let safe = of_bytes _ k.1 c t.0 in
          rw (encode_byte_unmapped e c n) (
            decode_plain q c (flat (encode_byte e) s) (λ a b r _. ground (arith, n, safe))
            ∙ ground (arith, n, safe, rest))
    ]

bytes_of_text : (s : Bytes) → All IsTextByte s → All (λ c. c < 256) s
bytes_of_text [] h = tt
bytes_of_text (c ∷ s) (t, h) = (t.0, bytes_of_text s h)

-- What either URI encoding makes of a string with no control characters, either decoder reads
-- back: the string that `urldecode_internal` leaves in the buffer is the one that was encoded.
pub decode-encode :
    (q : Bool) (s : Bytes)
    → All IsTextByte s
    → (decode q (until_nul (flat (encode_byte rel_uri) s)) ≡ s)
      × (decode q (until_nul (flat (encode_byte rel_uri_part) s)) ≡ s)
decode-encode q s h =
    (read_back rel_uri rel_uri-Escapes, read_back rel_uri_part rel_uri_part-Escapes)
  where
    read_back : (e : Encoding) → Escapes e → decode q (until_nul (flat (encode_byte e) s)) ≡ s
    read_back e k =
        rw (until_nul_id _ (all-flat _ (encode_byte e) s k.2 (bytes_of_text s h)))
          (decode-flat q e s k h)

-- With the buffer around it: encode a string into a buffer, decode that buffer in place, and it
-- holds the string again.
module _ (h : Allocator) (ample : (n : ℕ) → h.grants n ≡ true) where
  -- With memory granted, a string of bytes other than control characters, whose encoding has a
  -- length that fits a `size_t`, is appended to an empty buffer in the encoding for a part of a
  -- URI, is decoded there in place, as a path or as a query, and is the same string again.
  pub urldecode-append_string_encoded :
      (q : Bool) {b : Buffer} (s : Bytes)
      → IsSized b
      → b.used ≡ 0
      → All IsTextByte s
      → 1 + length (flat (encode_byte rel_uri_part) s) < size_mod
      → (b1 : Buffer) × (append_string_encoded h b s rel_uri_part ≡ ok b1)
        × (b2 : Buffer) × (urldecode_internal q b1 ≡ ok b2)
        × Stores b2 s
  urldecode-append_string_encoded q {b} s z u t fits =
      let (b1, run, k) =
        append_string_encoded_lem h ample {b = b} [] s rel_uri_part (inl (z, u, refl))
          (omega arith) in
      let (b2, run2, k2) = urldecode_internal_lem q (flat (encode_byte rel_uri_part) s) k in
      (b1, run, b2, run2, rw ((decode-encode q s t).1) at k2)
