-- ===== src/Buffer.antt =====
-- The string buffers of src/buffer.c and src/buffer.h.
pub mod Holds
pub mod Room
pub mod Write
pub mod Slash
pub mod Resize
use lighttpd.Base.{
  ℕ, zero, suc, ◌+◌, ◌-◌, ◌%◌, ◌≡◌, Bool, true, false, not, ◌&&◌, List, [], ◌∷◌, ◌++◌, ltb, leb,
  ◌==◌, if◌then◌else◌, length, take,
}
use lighttpd.Memory.{
  Outcome, ok, aborted, ◌>>=◌, ◌>>◌, force_assert, Bytes, size_mod, add_size, Allocator, fresh,
  load, store, memcpy,
}

-- `buffer`; a null pointer is the block of no bytes.
pub record Buffer : Type 0 where
  pub ptr : Bytes
  pub used : ℕ
  pub size : ℕ

-- `buffer_init`
abbrev pub init : Buffer
init = record { ptr = []; used = 0; size = 0 }

abbrev pub buffer_max_reuse_size : ℕ
buffer_max_reuse_size = 4096

abbrev pub buffer_piece_size : ℕ
buffer_piece_size = 64

-- `buffer_string_length`
unfoldable pub string_length : Buffer → ℕ
string_length b = if b.used == 0 then 0 else b.used - 1

unfoldable pub string_space : Buffer → ℕ
string_space b =
    if b.size == 0
    then 0
    else if b.used == 0
    then b.size - 1
    else (b.size + size_mod - b.used) % size_mod

unfoldable pub is_empty : Buffer → Bool
is_empty b = b.used == 0

unfoldable pub string_is_empty : Buffer → Bool
unfolding string_length
string_is_empty b = string_length b == 0

unfoldable pub reset : Buffer → Outcome Buffer
reset b =
    if ltb buffer_max_reuse_size b.size
    then ok init
    else if ltb 0 b.size
    then (store b.ptr 0 0 >>= λ m. ok (record b { ptr = m; used = 0 }))
    else ok (record b { used = 0 })

-- `buffer_move`, for two buffers: the new `b` and the new `src`
unfoldable pub move : Buffer → Buffer → Outcome (Buffer × Buffer)
move b src = reset b >>= λ b'. ok (src, b')

unfoldable pub align_size : ℕ → ℕ
align_size size =
    let align = buffer_piece_size - size % buffer_piece_size in
    if ltb (add_size size align) size then size else add_size size align

abbrev at_least_one : ℕ → ℕ
at_least_one size = if size == 0 then 1 else size

module _ (h : Allocator) where
  -- `buffer_alloc`: old data is dropped
  unfoldable pub alloc : Buffer → ℕ → Outcome Buffer
  alloc b size =
      let size' = at_least_one size in
      let n = align_size size' in
      if leb size' b.size
      then ok b
      else if h.grants n
      then ok (record { ptr = fresh h 0 n; used = 0; size = n })
      else aborted

  -- `buffer_realloc`: old data is kept; the block only grows
  unfoldable pub realloc : Buffer → ℕ → Outcome Buffer
  realloc b size =
      let size' = at_least_one size in
      let n = align_size size' in
      if leb size' b.size
      then ok b
      else if h.grants n
      then ok (record b { ptr = b.ptr ++ fresh h b.size (n - b.size); size = n })
      else aborted

  -- `buffer_string_prepare_copy`; the pointer returned is the start of the block
  unfoldable pub string_prepare_copy : Buffer → ℕ → Outcome (Buffer × ℕ)
  string_prepare_copy b size = do
    force_assert (ltb size (add_size size 1))
    b' ← alloc b (add_size size 1)
    m ← store b'.ptr 0 0
    ok (record b' { used = 1; ptr = m }, 0)

  -- `buffer_string_prepare_append`; the pointer returned is the place of the terminating zero
  unfoldable pub string_prepare_append : Buffer → ℕ → Outcome (Buffer × ℕ)
  string_prepare_append b size = if string_is_empty b then string_prepare_copy b size else do
    force_assert (leb b.used (add_size b.used size))
    b' ← realloc b (add_size b.used size)
    ok (b', b'.used - 1)

  unfoldable pub string_set_length : Buffer → ℕ → Outcome Buffer
  string_set_length b len = do
    force_assert (ltb len (add_size len 1))
    b' ← realloc b (add_size len 1)
    m ← store b'.ptr len 0
    ok (record b' { used = len + 1; ptr = m })

-- `buffer_commit`
commit_used : ℕ → ℕ → ℕ → Outcome ℕ
commit_used used size b_size = if size == 0 then ok used else do
  force_assert (ltb used (add_size used size))
  force_assert (leb (add_size used size) b_size)
  ok (add_size used size)

unfoldable pub commit : Buffer → ℕ → Outcome Buffer
unfolding commit_used
commit b size = do
  force_assert (ltb 0 b.size)
  used ← commit_used (if b.used == 0 then 1 else b.used) size b.size
  m ← store b.ptr (used - 1) 0
  ok (record b { used = used; ptr = m })

module _ (h : Allocator) where
  -- `buffer_copy_string_len` of a string that is not part of the buffer
  unfoldable pub copy_string_len : Buffer → Bytes → Outcome Buffer
  copy_string_len b s = do
    (b', _) ← string_prepare_copy h b (length s)
    m ← memcpy b'.ptr 0 s
    commit (record b' { ptr = m }) (length s)

  unfoldable pub copy_buffer : Buffer → Buffer → Outcome Buffer
  copy_buffer b src =
      if src.used == 0
      then (string_prepare_copy h b 0 >>= λ r. ok (record (r.0) { used = 0 }))
      else copy_string_len b (take (src.used - 1) src.ptr)

  -- `buffer_append_string_len` of a string that is not part of the buffer
  unfoldable pub append_string_len : Buffer → Bytes → Outcome Buffer
  append_string_len b s = do
    (b', target) ← string_prepare_append h b (length s)
    if length s == 0
        then ok b'
        else do m ← memcpy b'.ptr target s; commit (record b' { ptr = m }) (length s)

  unfoldable pub append_string_buffer : Buffer → Buffer → Outcome Buffer
  append_string_buffer b src = append_string_len b (take (string_length src) src.ptr)

  -- `buffer_append_slash`
  unfoldable pub append_slash : Buffer → Outcome Buffer
  append_slash b = if string_length b == 0 then ok b else do
    c ← load b.ptr (string_length b - 1)
    if c == b'/' then ok b else append_string_len b (b'/' ∷ [])
