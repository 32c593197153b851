-- ===== src/Encode/Safe.antt =====
-- What the encodings of src/buffer.c are to whoever reads their output.
use lighttpd.Base.{
  ℕ, ◌+◌, ◌<◌, ◌≡◌, refl, inl, inr, Bool, true, false, not, ◌&&◌, [], ◌∷◌, ◌++◌, arith, ltb, leb,
  ◌==◌, if◌then◌else◌, Bool-cases, length, All, all, all-append,
}
use lighttpd.Memory.{ok, Bytes, size_mod, Allocator}
use lighttpd.Buffer.{Buffer}
use lighttpd.Buffer.Holds.{Stores}
use lighttpd.Chars.Table.{passes, on_bytes, of_bytes}
use lighttpd.Encode.{
  Encoding, rel_uri, html, minimal_xml, http_header, is_mapped, width, encode_byte,
  append_string_encoded, escaped_width, escape_byte, append_string_c_escaped, flat,
}
use lighttpd.Encode.Append.{append_each_lem}

width-encode_byte : (e : Encoding) (c : ℕ) → width e c ≡ length (encode_byte e c)
unfolding width encode_byte
width-encode_byte rel_uri c = ground arith
width-encode_byte _ c = ground arith

width_pos : (e : Encoding) (c : ℕ) → 0 < width e c
unfolding width
width_pos rel_uri c = ground arith
width_pos _ c = ground arith

escaped_width-escape_byte : (c : ℕ) → escaped_width c ≡ length (escape_byte c)
unfolding escaped_width escape_byte
escaped_width-escape_byte c = ground arith

escaped_width_pos : (c : ℕ) → 0 < escaped_width c
unfolding escaped_width
escaped_width_pos c = ground arith

module _ (h : Allocator) (ample : (n : ℕ) → h.grants n ≡ true) where
  -- With memory granted, where a buffer stores a string and the new length fits a `size_t`,
  -- `buffer_append_string_encoded` returns for each of the six encodings, and the buffer then
  -- stores the old string followed by the encoded one: the room counted is what is filled.
  pub append_string_encoded_lem :
      {b : Buffer} (s t : Bytes) (e : Encoding)
      → Stores b s
      → length s + 1 + length (flat (encode_byte e) t) < size_mod
      → (b' : Buffer) × (append_string_encoded h b t e ≡ ok b')
        × Stores b' (s ++ flat (encode_byte e) t)
  unfolding append_string_encoded
  append_string_encoded_lem s t e k q =
      append_each_lem h ample (width e) (encode_byte e) s t (width-encode_byte e) (width_pos e) k q

  -- With memory granted, where a buffer stores a string and the new length fits a `size_t`,
  -- `buffer_append_string_c_escaped` returns, and the buffer then stores the old string followed
  -- by the escaped one.
  pub append_string_c_escaped_lem :
      {b : Buffer} (s t : Bytes)
      → Stores b s
      → length s + 1 + length (flat escape_byte t) < size_mod
      → (b' : Buffer) × (append_string_c_escaped h b t ≡ ok b')
        × Stores b' (s ++ flat escape_byte t)
  unfolding append_string_c_escaped
  append_string_c_escaped_lem s t k q =
      append_each_lem h ample escaped_width escape_byte s t escaped_width-escape_byte
        escaped_width_pos k q

-- A test that every form of a byte passes holds of the whole output.
pub all-flat :
    (p : ℕ → Bool) (f : ℕ → Bytes) (s : Bytes)
    → on_bytes (λ c. all p (f c)) ≡ true
    → All (λ c. c < 256) s
    → all p (flat f s) ≡ true
unfolding flat
all-flat p f [] t h = refl
all-flat p f (c ∷ s) t (lt, h) =
    all-append p (f c) (flat f s) (of_bytes (λ x. all p (f x)) t c lt) (all-flat p f s t h)

-- No byte that opens or closes a tag or an attribute's value
unfoldable pub is_plain : ℕ → Bool
is_plain c = not (c == b'<') && (not (c == b'>') && (not (c == b'"') && not (c == 39)))

html_table : on_bytes (λ c. all is_plain (encode_byte html c)) ≡ true
unfolding passes encode_byte is_mapped is_plain
html_table = refl

xml_table : on_bytes (λ c. all is_plain (encode_byte minimal_xml c)) ≡ true
unfolding passes encode_byte is_mapped is_plain
xml_table = refl

-- The HTML encoding and the minimal XML encoding of any string of bytes have no `<`, `>`, `"` or
-- `'`.
pub encode_markup_safe :
    (s : Bytes)
    → All (λ c. c < 256) s
    → (all is_plain (flat (encode_byte html) s) ≡ true)
      × (all is_plain (flat (encode_byte minimal_xml) s) ≡ true)
encode_markup_safe s h = (
  all-flat is_plain (encode_byte html) s html_table h,
  all-flat is_plain (encode_byte minimal_xml) s xml_table h,
)

unfoldable pub is_printable : ℕ → Bool
is_printable c = leb 0x20 c && ltb c 0x7f

escape_table : on_bytes (λ c. all is_printable (escape_byte c)) ≡ true
unfolding passes escape_byte is_printable
escape_table = refl

-- The escaped form of any string of bytes is printable ASCII.
pub escape_printable :
    (s : Bytes) → All (λ c. c < 256) s → all is_printable (flat escape_byte s) ≡ true
escape_printable s h = all-flat is_printable escape_byte s escape_table h

-- Every line feed is followed by a tab: the line is continued, and no new header begins.
unfoldable pub is_one_header : Bytes → Bool
is_one_header [] = true
is_one_header (c ∷ []) = not (c == b'\n')
is_one_header (c ∷ d ∷ s) = (if c == b'\n' then d == b'\t' else true) && is_one_header (d ∷ s)

header_table :
    on_bytes (λ c. (if c == b'\n' then is_mapped http_header c else not (is_mapped http_header c)))
    ≡ true
unfolding passes is_mapped
header_table = refl

header_mapped :
    (c : ℕ)
    → c < 256
    → (if c == b'\n' then is_mapped http_header c else not (is_mapped http_header c)) ≡ true
header_mapped c lt = of_bytes _ header_table c lt

is_one_header-cons :
    (c : ℕ) (s : Bytes)
    → (c == b'\n') ≡ false
    → is_one_header s ≡ true
    → is_one_header (c ∷ s) ≡ true
unfolding is_one_header
is_one_header-cons c [] e h = ground arith
is_one_header-cons c (d ∷ s) e h = ground arith

is_one_header_continued :
    (s : Bytes) → is_one_header s ≡ true → is_one_header (b'\n' ∷ b'\t' ∷ s) ≡ true
unfolding is_one_header
is_one_header_continued [] h = refl
is_one_header_continued (d ∷ s) h = h

-- In the header encoding of any string of bytes every line feed is followed by a tab.
pub encode_header_safe :
    (s : Bytes) → All (λ c. c < 256) s → is_one_header (flat (encode_byte http_header) s) ≡ true
unfolding flat encode_byte
encode_header_safe [] h = unfold is_one_header in refl
encode_header_safe (c ∷ s) (lt, h) =
    let rest = encode_header_safe s h in
    elim (Bool-cases (c == b'\n')) [
      | inl y ↦ ground (
        arith,
        header_mapped c lt,
        is_one_header_continued (flat (encode_byte http_header) s) rest,
      )
      | inr n ↦ ground (
        arith,
        header_mapped c lt,
        is_one_header-cons c (flat (encode_byte http_header) s) n rest,
      )
    ]
