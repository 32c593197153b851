-- ===== src/Number.antt =====
-- Numbers as text: `utostr`, `itostr`, `buffer_append_int`, `li_itostrn`, `li_utostrn` and
-- `buffer_append_uint_hex` of src/buffer.c. Digits are written backwards into a local array.
pub mod Decimal
pub mod Append
pub mod CopyOut
pub mod Hex
use lighttpd.Base.{
  ℕ, zero, suc, ◌+◌, ◌-◌, ◌*◌, ◌/◌, ◌%◌, ◌^◌, ltb, leb, ◌==◌, if◌then◌else◌, take, drop,
}
use lighttpd.Memory.{
  Outcome, ok, fault, ◌>>=◌, ◌>>◌, force_assert, Bytes, size_mod, Allocator, fresh, store, memcpy,
}
use lighttpd.Buffer.{Buffer, string_prepare_append, commit, append_string_len}
use lighttpd.Chars.{int2hex}

-- `intmax_t`; `negsuc n` is -(n + 1).
pub data ℤ : Type 0 where
  pos : ℕ → ℤ
  negsuc : ℕ → ℤ

-- `LI_ITOSTRING_LENGTH`: 2 + (8 * sizeof(intmax_t) * 31 + 99) / 100
abbrev pub li_itostring_length : ℕ
li_itostring_length = 2 + (8 * 8 * 31 + 99) / 100

-- `*(--cur) = v`; a pointer at the start of the array cannot go further down.
unfoldable pub push_front : Bytes → ℕ → ℕ → Outcome (Bytes × ℕ)
push_front m zero v = fault
push_front m (suc cur) v = store m cur v >>= λ m'. ok (m', cur)

-- The array and the offset of the first digit
unfoldable pub utostr : Bytes → ℕ → ℕ → Outcome (Bytes × ℕ)
utostr m zero val = fault
utostr m (suc cur) val = do
  m' ← store m cur (b'0' + val % 10)
  let rest = utostr m' cur (val / 10)
  if val / 10 == 0 then ok (m', cur) else rest

-- `(uintmax_t)val`, or `((uintmax_t)~val) + 1`
unfoldable pub magnitude : ℤ → ℕ
magnitude (pos n) = n
magnitude (negsuc n) = (n + 1) % size_mod

unfoldable pub itostr : Bytes → ℕ → ℤ → Outcome (Bytes × ℕ)
itostr m cur (pos n) = utostr m cur (magnitude (pos n))
itostr m cur (negsuc n) = do
  (m', cur') ← utostr m cur (magnitude (negsuc n))
  push_front m' cur' b'-'

module _ (h : Allocator) where
  -- The local array, whose bytes are arbitrary at first
  abbrev pub local_array : Bytes
  local_array = fresh h 0 li_itostring_length

  -- `buffer_append_int`
  unfoldable pub append_int : Buffer → ℤ → Outcome Buffer
  append_int b val = do
    (m, str) ← itostr local_array li_itostring_length val
    force_assert (ltb str li_itostring_length)
    append_string_len h b (take (li_itostring_length - str) (drop str m))

  -- `buffer_copy_int`
  unfoldable pub copy_int : Buffer → ℤ → Outcome Buffer
  copy_int b val = append_int (record b { used = 0 }) val

  -- The shared end of `li_itostrn` and `li_utostrn`: the text and its zero, copied to `buf`
  unfoldable pub copy_out : Bytes → ℕ → Bytes × ℕ → Outcome Bytes
  copy_out buf buf_len (m, str) = do
    force_assert (ltb str li_itostring_length)
    force_assert (leb (li_itostring_length - str) buf_len)
    memcpy buf 0 (take (li_itostring_length - str) (drop str m))

  unfoldable pub itostrn : Bytes → ℕ → ℤ → Outcome Bytes
  itostrn buf buf_len val = do
    m ← store local_array (li_itostring_length - 1) 0
    r ← itostr m (li_itostring_length - 1) val
    copy_out buf buf_len r

  unfoldable pub utostrn : Bytes → ℕ → ℕ → Outcome Bytes
  utostrn buf buf_len val = do
    m ← store local_array (li_itostring_length - 1) 0
    r ← utostr m (li_itostring_length - 1) val
    copy_out buf buf_len r

-- The counting loop of `buffer_append_uint_hex`, for at most `fuel` bytes; `shift` counts nibbles.
unfoldable pub count_nibbles : ℕ → ℕ → ℕ → ℕ
count_nibbles zero copy shift = shift
count_nibbles (suc fuel) copy shift =
    let rest = count_nibbles fuel (copy / 2 ^ 8) (shift + 2) in
    if copy / 2 ^ 8 == 0 then shift + 2 else rest

-- The filling loop, for `n` nibbles
unfoldable pub write_nibbles : Bytes → ℕ → ℕ → ℕ → Outcome Bytes
write_nibbles m i value zero = ok m
write_nibbles m i value (suc n) = do
  m' ← store m i (int2hex (value / 2 ^ (4 * n)))
  write_nibbles m' (i + 1) value n

-- `buffer_append_uint_hex`; an `uintmax_t` has eight bytes.
unfoldable pub append_uint_hex : Allocator → Buffer → ℕ → Outcome Buffer
append_uint_hex h b value = do
  (b', buf) ← string_prepare_append h b (count_nibbles 8 value 0)
  b'' ← commit b' (count_nibbles 8 value 0)
  m ← write_nibbles b''.ptr buf value (count_nibbles 8 value 0)
  ok (record b'' { ptr = m })
