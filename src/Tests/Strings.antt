-- ===== src/Tests/Strings.antt =====
-- Buffers, encodings and numbers (src/buffer.c) at concrete inputs.
use lighttpd.Base.{
  ℕ, suc, ◌*◌, ◌^◌, ◌≤◌, ◌<◌, ◌≡◌, refl, inl, inr, true, [], ◌∷◌, arith, length, all,
}
use lighttpd.Memory.{ok, Bytes, Allocator, fresh}
use lighttpd.Buffer.{
  Buffer, init, buffer_max_reuse_size, is_empty, move, copy_buffer, append_string_len, append_slash,
}
use lighttpd.Buffer.Holds.{IsSized, Holds, Stores}
use lighttpd.Buffer.Resize.{move_lem}
use lighttpd.Buffer.Slash.{append_slash_lem}
use lighttpd.Buffer.Write.{append_string_len_lem, copy_buffer_lem}
use lighttpd.Chars.{hex_of}
use lighttpd.Chars.Hex.{unhex, unhex-hex_of}
use lighttpd.Encode.{
  html, minimal_xml, http_header, is_mapped, encode_byte, append_string_encoded, escape_byte,
  append_string_c_escaped, flat,
}
use lighttpd.Encode.Safe.{
  append_string_encoded_lem, append_string_c_escaped_lem, is_plain, encode_markup_safe,
  is_printable, escape_printable, is_one_header, encode_header_safe,
}
use lighttpd.Number.{negsuc, append_int, itostrn, append_uint_hex}
use lighttpd.Number.Append.{IsIntText, append_int_lem}
use lighttpd.Number.CopyOut.{HoldsText, itostrn_lem}
use lighttpd.Number.Hex.{IsHex, append_uint_hex_lem}

-- An allocator that never refuses
abbrev generous : Allocator
generous = record { grants = λ n. true; junk = λ i. 170 }

generous_ample : (n : ℕ) → generous.grants n ≡ true
generous_ample n = refl

init-IsSized : IsSized init
init-IsSized = record { size_is = refl; in_range = omega arith }

init-Stores : Stores init []
init-Stores = inl (init-IsSized, refl, refl)

-- A buffer of eight bytes that holds "a+<"
abbrev small : Buffer
small = record { ptr = b'a' ∷ b'+' ∷ b'<' ∷ 0 ∷ 7 ∷ 7 ∷ 7 ∷ 7 ∷ []; used = 4; size = 8 }

small-Holds : Holds small (b'a' ∷ b'+' ∷ b'<' ∷ [])
small-Holds = record {
  rest = 7 ∷ 7 ∷ 7 ∷ 7 ∷ [];
  layout = refl;
  used_is = refl;
  size_is = refl;
  in_range = omega arith;
}

append_string_len_example :
    (b' : Buffer) × (append_string_len generous small (b'b' ∷ []) ≡ ok b')
    × Holds b' (b'a' ∷ b'+' ∷ b'<' ∷ b'b' ∷ [])
append_string_len_example =
    append_string_len_lem generous generous_ample (b'a' ∷ b'+' ∷ b'<' ∷ []) (b'b' ∷ [])
      (inr small-Holds) (omega arith)

copy_buffer_example :
    (b' : Buffer) × (copy_buffer generous init small ≡ ok b')
    × Stores b' (b'a' ∷ b'+' ∷ b'<' ∷ [])
    × (is_empty b' ≡ is_empty small)
copy_buffer_example =
    copy_buffer_lem generous generous_ample init (b'a' ∷ b'+' ∷ b'<' ∷ []) init-IsSized
      (inr small-Holds)

append_slash_example :
    (b' : Buffer) × (append_slash generous small ≡ ok b')
    × Stores b' (b'a' ∷ b'+' ∷ b'<' ∷ b'/' ∷ [])
append_slash_example =
    append_slash_lem generous generous_ample (b'a' ∷ b'+' ∷ b'<' ∷ []) (inr small-Holds)
      (omega arith)

move_example :
    (b' : Buffer) × (src' : Buffer) × (move init small ≡ ok (b', src'))
    × Stores b' (b'a' ∷ b'+' ∷ b'<' ∷ [])
    × Stores src' []
    × (src'.size ≤ buffer_max_reuse_size)
move_example = move_lem init small (b'a' ∷ b'+' ∷ b'<' ∷ []) init-IsSized (inr small-Holds)

unhex_example : unhex (hex_of (171 ∷ 0 ∷ [])) ≡ 171 ∷ 0 ∷ []
unhex_example = unhex-hex_of (171 ∷ 0 ∷ []) (omega arith)

append_string_encoded_example :
    (b' : Buffer) × (append_string_encoded generous init (b'<' ∷ b'a' ∷ []) html ≡ ok b')
    × Stores b' (flat (encode_byte html) (b'<' ∷ b'a' ∷ []))
append_string_encoded_example =
    append_string_encoded_lem generous generous_ample [] (b'<' ∷ b'a' ∷ []) html init-Stores
      (unfold flat encode_byte is_mapped in omega arith)

append_string_c_escaped_example :
    (b' : Buffer) × (append_string_c_escaped generous init (7 ∷ b'a' ∷ []) ≡ ok b')
    × Stores b' (flat escape_byte (7 ∷ b'a' ∷ []))
append_string_c_escaped_example =
    append_string_c_escaped_lem generous generous_ample [] (7 ∷ b'a' ∷ []) init-Stores
      (unfold flat escape_byte in omega arith)

encode_markup_safe_example :
    (all is_plain (flat (encode_byte html) (b'<' ∷ 200 ∷ [])) ≡ true)
    × (all is_plain (flat (encode_byte minimal_xml) (b'<' ∷ 200 ∷ [])) ≡ true)
encode_markup_safe_example = encode_markup_safe (b'<' ∷ 200 ∷ []) (omega arith)

escape_printable_example : all is_printable (flat escape_byte (7 ∷ 200 ∷ [])) ≡ true
escape_printable_example = escape_printable (7 ∷ 200 ∷ []) (omega arith)

encode_header_safe_example :
    is_one_header (flat (encode_byte http_header) (b'a' ∷ b'\n' ∷ b'b' ∷ [])) ≡ true
encode_header_safe_example = encode_header_safe (b'a' ∷ b'\n' ∷ b'b' ∷ []) (omega arith)

append_int_example :
    (text : Bytes) × IsIntText text (negsuc 9)
    × (b' : Buffer) × (append_int generous init (negsuc 9) ≡ ok b')
    × Holds b' text
append_int_example =
    append_int_lem generous generous_ample [] (negsuc 9) init-Stores (omega arith) (omega arith)

abbrev array : Bytes
array = fresh generous 0 30

itostrn_example :
    (text : Bytes) × IsIntText text (negsuc 9)
    × (buf' : Bytes) × (itostrn generous array 30 (negsuc 9) ≡ ok buf')
    × HoldsText array buf' text
itostrn_example = itostrn_lem generous array 30 (negsuc 9) (omega arith) (omega arith) (omega arith)

append_uint_hex_example :
    (text : Bytes) × (k : ℕ) × IsHex text 4096
    × (length text ≡ 2 * suc k)
    × (0 < k → 256 ^ k ≤ 4096)
    × (b' : Buffer) × (append_uint_hex generous init 4096 ≡ ok b')
    × Holds b' text
append_uint_hex_example =
    append_uint_hex_lem generous generous_ample [] 4096 init-Stores (omega arith) (omega arith)
