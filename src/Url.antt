-- ===== src/Url.antt =====
-- `buffer_urldecode_internal` of src/buffer.c, in place over the buffer's block: `src` and `dst`
-- are offsets. The fuel of each loop is `url->used`.
pub mod Decode
pub mod Loops
pub mod InPlace
pub mod RoundTrip
use Prim.Native.Nat.{bit_or}
use lighttpd.Base.{
  ℕ, zero, suc, ◌+◌, ◌-◌, ◌*◌, ◌%◌, Bool, true, false, ◌&&◌, ◌||◌, ltb, ◌==◌, if◌then◌else◌,
}
use lighttpd.Memory.{Outcome, ok, fault, ◌>>=◌, ◌>>◌, force_assert, Bytes, load, store}
use lighttpd.Buffer.{Buffer, string_is_empty}
use lighttpd.Chars.{hex2int}

-- The first loop: up to the first `%` nothing moves.
unfoldable pub skip_plain : Bool → ℕ → Bytes → ℕ → Outcome (Bytes × ℕ)
skip_plain is_query zero m src = fault
skip_plain is_query (suc fuel) m src = do
  c ← load m src
  if c == 0 || c == b'%' then ok (m, src) else do
    m' ← if is_query && c == b'+' then store m src b' ' else ok m
    skip_plain is_query fuel m' (src + 1)

-- Control characters are mapped out.
unfoldable pub printable : ℕ → ℕ
printable c = if ltb c 32 || c == 127 then b'_' else c

-- `(high << 4) | low`, as a byte
unfoldable pub joined : ℕ → ℕ → ℕ
joined high low = bit_or (high * 16 % 256) low

-- One round of the second loop: the block after the writes through `dst`, and how many bytes
-- `src` skips
unfoldable pub decode_at : Bool → Bytes → ℕ → ℕ → ℕ → Outcome (Bytes × ℕ)
decode_at is_query m src dst c =
    if is_query && c == b'+'
    then (store m dst b' ' >>= λ m'. ok (m', 0))
    else if c == b'%'
    then (do
      m1 ← store m dst b'%'
      a ← load m1 (src + 1)
      if hex2int a == 255 then ok (m1, 0) else do
        b ← load m1 (src + 2)
        if hex2int b == 255
            then ok (m1, 0)
            else do m2 ← store m1 dst (printable (joined (hex2int a) (hex2int b))); ok (m2, 2))
    else (store m dst c >>= λ m'. ok (m', 0))

-- The second loop: the block and the final `dst`
unfoldable pub decode_loop : Bool → ℕ → Bytes → ℕ → ℕ → Outcome (Bytes × ℕ)
decode_loop is_query zero m src dst = fault
decode_loop is_query (suc fuel) m src dst = do
  c ← load m src
  if c == 0 then ok (m, dst) else do
    (m', skip) ← decode_at is_query m src dst c
    decode_loop is_query fuel m' (src + skip + 1) (dst + 1)

unfoldable pub urldecode_internal : Bool → Buffer → Outcome Buffer
urldecode_internal is_query url = if string_is_empty url then ok url else do
  last ← load url.ptr (url.used - 1)
  force_assert (last == 0)
  (m, src) ← skip_plain is_query url.used url.ptr 0
  (m', dst) ← decode_loop is_query url.used m src src
  m'' ← store m' dst 0
  ok (record url { ptr = m''; used = dst + 1 })

unfoldable pub urldecode_path : Buffer → Outcome Buffer
urldecode_path = urldecode_internal false

unfoldable pub urldecode_query : Buffer → Outcome Buffer
urldecode_query = urldecode_internal true
