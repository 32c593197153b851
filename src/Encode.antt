-- ===== src/Encode.antt =====
-- `buffer_append_string_encoded` and `buffer_append_string_c_escaped` of src/buffer.c.
pub mod Tables
pub mod Append
pub mod Safe
use lighttpd.Base.{ℕ, ◌+◌, Bool, ◌||◌, [], ◌∷◌, ◌++◌, ltb, leb, ◌==◌, if◌then◌else◌, length, get_or}
use lighttpd.Memory.{
  Outcome, ok, ◌>>=◌, ◌>>◌, force_assert, Bytes, add_size, Allocator, load, memcpy,
}
use lighttpd.Buffer.{Buffer, string_prepare_append, commit}
use lighttpd.Chars.{hex_pair}
use lighttpd.Encode.Tables.{
  encoded_chars_rel_uri_part, encoded_chars_rel_uri, encoded_chars_html, encoded_chars_minimal_xml,
  encoded_chars_hex, encoded_chars_http_header,
}

-- `buffer_encoding_t`
pub data Encoding : Type 0 where
  rel_uri rel_uri_part html minimal_xml hex http_header : Encoding

unfoldable pub map_of : Encoding → Bytes
unfolding Tables.encoded_chars_rel_uri Tables.encoded_chars_rel_uri_part Tables.encoded_chars_html
    Tables.encoded_chars_minimal_xml Tables.encoded_chars_hex Tables.encoded_chars_http_header
map_of rel_uri = Tables.encoded_chars_rel_uri
map_of rel_uri_part = Tables.encoded_chars_rel_uri_part
map_of html = Tables.encoded_chars_html
map_of minimal_xml = Tables.encoded_chars_minimal_xml
map_of hex = Tables.encoded_chars_hex
map_of http_header = Tables.encoded_chars_http_header

-- `map[*ds]` as a condition
unfoldable pub is_mapped : Encoding → ℕ → Bool
unfolding map_of
is_mapped e c = ltb 0 (get_or (map_of e) c 0)

mapped_width : Encoding → ℕ
mapped_width rel_uri = 3
mapped_width rel_uri_part = 3
mapped_width html = 6
mapped_width minimal_xml = 6
mapped_width http_header = 2
mapped_width hex = 2

-- What one byte adds to `d_len` in the counting loop
unfoldable pub width : Encoding → ℕ → ℕ
unfolding mapped_width
width e c = if is_mapped e c then mapped_width e else 1

mapped_bytes : Encoding → ℕ → Bytes
unfolding hex_pair
mapped_bytes rel_uri c = b'%' ∷ hex_pair c
mapped_bytes rel_uri_part c = b'%' ∷ hex_pair c
mapped_bytes html c = b'&' ∷ b'#' ∷ b'x' ∷ (hex_pair c ++ (b';' ∷ []))
mapped_bytes minimal_xml c = b'&' ∷ b'#' ∷ b'x' ∷ (hex_pair c ++ (b';' ∷ []))
mapped_bytes hex c = hex_pair c
mapped_bytes http_header c = c ∷ b'\t' ∷ []

-- What one byte is written as in the filling loop
unfoldable pub encode_byte : Encoding → ℕ → Bytes
unfolding mapped_bytes
encode_byte e c = if is_mapped e c then mapped_bytes e c else c ∷ []

-- The counting loop of both functions
unfoldable pub count_each : (ℕ → ℕ) → ℕ → Bytes → ℕ
count_each f d_len [] = d_len
count_each f d_len (c ∷ s) = count_each f (add_size d_len (f c)) s

-- The filling loop of both functions: `d[d_len++] = ...` for each byte written
unfoldable pub write_each : (ℕ → Bytes) → Bytes → ℕ → Bytes → Outcome Bytes
write_each f m i [] = ok m
write_each f m i (c ∷ s) = memcpy m i (f c) >>= λ m'. write_each f m' (i + length (f c)) s

-- Both functions, with the width and the form of a byte
unfoldable pub append_each : Allocator → (ℕ → ℕ) → (ℕ → Bytes) → Buffer → Bytes → Outcome Buffer
append_each h w f b s = if length s == 0 then ok b else do
  (b', d) ← string_prepare_append h b (count_each w 0 s)
  b'' ← commit b' (count_each w 0 s)
  c ← load b''.ptr d
  force_assert (c == 0)
  m ← write_each f b''.ptr d s
  ok (record b'' { ptr = m })

-- `buffer_append_string_encoded`
unfoldable pub append_string_encoded : Allocator → Buffer → Bytes → Encoding → Outcome Buffer
append_string_encoded h b s e = append_each h (width e) (encode_byte e) b s

abbrev is_control : ℕ → Bool
is_control c = ltb c 0x20 || leb 0x7f c

unfoldable pub escaped_width : ℕ → ℕ
escaped_width c =
    if is_control c then (if c == b'\t' || c == b'\r' || c == b'\n' then 2 else 4) else 1

unfoldable pub escape_byte : ℕ → Bytes
unfolding hex_pair
escape_byte c =
    if is_control c
    then (if c == b'\t'
        then b'\\' ∷ b't' ∷ []
        else if c == b'\r'
        then b'\\' ∷ b'r' ∷ []
        else if c == b'\n'
        then b'\\' ∷ b'n' ∷ []
        else b'\\' ∷ b'x' ∷ hex_pair c)
    else c ∷ []

-- `buffer_append_string_c_escaped`
unfoldable pub append_string_c_escaped : Allocator → Buffer → Bytes → Outcome Buffer
append_string_c_escaped h b s = append_each h escaped_width escape_byte b s

-- The bytes of a string one after the other, each in its form
unfoldable pub flat : (ℕ → Bytes) → Bytes → Bytes
flat f [] = []
flat f (c ∷ s) = f c ++ flat f s
