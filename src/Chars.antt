-- ===== src/Chars.antt =====
-- Character classes and hexadecimal digits: `light_is*`, `int2hex`, `hex2int` and `li_tohex` of
-- src/buffer.c. A character is its byte, from 0 to 255.
pub mod Table
pub mod Hex
use Prim.Native.Nat.{bit_or}
use lighttpd.Base.{
  ℕ, ◌+◌, ◌-◌, ◌*◌, ◌/◌, ◌%◌, Bool, true, ◌&&◌, ◌||◌, [], ◌∷◌, ◌++◌, ltb, leb, if◌then◌else◌,
  length, get_or,
}
use lighttpd.Memory.{Outcome, ok, ◌>>=◌, ◌>>◌, force_assert, Bytes, size_mod, Allocator, store}
use lighttpd.Buffer.{Buffer, string_length, string_set_length}

unfoldable pub light_isdigit : ℕ → Bool
light_isdigit c = leb b'0' c && leb c b'9'

unfoldable pub light_isxdigit : ℕ → Bool
unfolding light_isdigit
light_isxdigit c =
    if light_isdigit c then true else leb b'a' (bit_or c 32) && leb (bit_or c 32) b'f'

unfoldable pub light_isalpha : ℕ → Bool
light_isalpha c = leb b'a' (bit_or c 32) && leb (bit_or c 32) b'z'

unfoldable pub light_isalnum : ℕ → Bool
unfolding light_isdigit light_isalpha
light_isalnum c = light_isdigit c || light_isalpha c

-- `hex_chars`
abbrev pub hex_chars : Bytes
hex_chars =
    b'0' ∷ b'1' ∷ b'2' ∷ b'3' ∷ b'4' ∷ b'5' ∷ b'6' ∷ b'7' ∷ b'8' ∷ b'9' ∷ b'a' ∷ b'b' ∷ b'c' ∷ b'd'
    ∷ b'e' ∷ b'f' ∷ []

unfoldable pub int2hex : ℕ → ℕ
int2hex c = get_or hex_chars (c % 16) 0

-- The two digits of a byte: `hex_chars[(c >> 4) & 0x0F]`, `hex_chars[c & 0x0F]`
unfoldable pub hex_pair : ℕ → Bytes
unfolding int2hex
hex_pair c = int2hex (c / 16) ∷ int2hex c ∷ []

hex_value : ℕ → ℕ
hex_value value = if ltb 15 value then 255 else value

unfoldable pub hex2int : ℕ → ℕ
unfolding hex_value
hex2int hex =
    let value = (hex + 256 - b'0') % 256 in
    if ltb 9 value
    then (let lower = (bit_or hex 32 + 256 - b'a' + 10) % 256 in
        hex_value (if ltb lower 10 then 255 else lower))
    else hex_value value

tohex_from : Bytes → ℕ → Bytes → Outcome Bytes
tohex_from buf i [] = ok buf
tohex_from buf i (c ∷ s) = do
  buf' ← store buf (2 * i) (int2hex (c / 16))
  buf'' ← store buf' (2 * i + 1) (int2hex c)
  tohex_from buf'' (i + 1) s

-- `li_tohex`; the block `buf` may be longer than `buf_len`
unfoldable pub tohex : Bytes → ℕ → Bytes → Outcome Bytes
unfolding tohex_from
tohex buf buf_len s = do
  force_assert (ltb (length s) (2 * length s % size_mod))
  force_assert (ltb (2 * length s % size_mod) buf_len)
  buf' ← tohex_from buf 0 s
  store buf' (2 * length s) 0

-- `buffer_copy_string_hex`
unfoldable pub copy_string_hex : Allocator → Buffer → Bytes → Outcome Buffer
copy_string_hex h b s = do
  force_assert (ltb (length s) (length s * 2 % size_mod))
  b' ← string_set_length h b (2 * length s)
  m ← tohex b'.ptr (string_length b' + 1) s
  ok (record b' { ptr = m })

-- The digits of a string of bytes
unfoldable pub hex_of : Bytes → Bytes
unfolding hex_pair
hex_of [] = []
hex_of (c ∷ s) = hex_pair c ++ hex_of s
