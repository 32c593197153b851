-- ===== src/Chunkqueue/Transfer.antt =====
-- Moving chunks from one queue to another, and reading into the last chunk of a queue (src/chunk.c).
use lighttpd.Base.{
  ℕ, ◌+◌, ◌-◌, ◌%◌, Bool, true, false, ◌&&◌, Option, none, some, List, [], ◌∷◌, ltb, leb, ◌==◌,
  if◌then◌else◌, take, drop,
}
use lighttpd.Memory.{Outcome, ok, ◌>>=◌, ◌>>◌, force_assert, size_mod, add_size, Allocator}
use lighttpd.Buffer.{
  Buffer, init, string_length, string_space, string_is_empty, reset, string_prepare_copy,
  string_prepare_append, commit,
}
use lighttpd.Chunk.{
  Kind, mem_chunk, file_chunk, Chunk, Chunkqueue, chunk_remaining_length,
  chunkqueue_push_unused_chunk, chunkqueue_get_unused_chunk,
}
use lighttpd.Chunkqueue.{chunkqueue_append_chunk, chunkqueue_append_file, chunkqueue_append_mem}

module _ (h : Allocator) where
  -- The part of a chunk that goes to the other queue
  unfoldable pub append_part : Chunkqueue → Chunk → Kind → ℕ → Outcome Chunkqueue
  append_part dest c mem_chunk n = chunkqueue_append_mem h dest (take n (drop c.offset c.mem.ptr))
  append_part dest c file_chunk n =
      chunkqueue_append_file h dest c.file_name (c.file_start + c.offset) n

  -- The loop of `chunkqueue_steal` over the chain of `src`: the two queues. They are not the same.
  unfoldable pub steal_chain :
      Chunkqueue → Chunkqueue → List Chunk → ℕ → Outcome (Chunkqueue × Chunkqueue)
  steal_chain dest src [] len = ok (dest, record src { first = [] })
  steal_chain dest src (c ∷ cs) len = do
    clen ← chunk_remaining_length c
    let dropped : Outcome (Chunkqueue × Chunkqueue) =
        chunkqueue_push_unused_chunk src c >>= λ src'. steal_chain dest src' cs len
    let moved : Outcome (Chunkqueue × Chunkqueue) = chunkqueue_append_chunk dest c >>= λ dest'.
        steal_chain dest' (record src { bytes_out = src.bytes_out + clen }) cs (len - clen)
    if len == 0
        then ok (dest, record src { first = c ∷ cs })
        else if clen == 0
        then dropped
        else if leb clen len
        then moved
        else (do
          dest' ← append_part dest c c.kind len
          ok (
            dest',
            record src {
              first = record c { offset = c.offset + len } ∷ cs;
              bytes_out = src.bytes_out + len;
            },
          ))

  unfoldable pub chunkqueue_steal : Chunkqueue → Chunkqueue → ℕ → Outcome (Chunkqueue × Chunkqueue)
  chunkqueue_steal dest src len = steal_chain dest src src.first len

-- `cq->last`
unfoldable pub last_chunk : List Chunk → Option Chunk
last_chunk [] = none
last_chunk (c ∷ []) = some c
last_chunk (c ∷ d ∷ cs) = last_chunk (d ∷ cs)

-- The chain with another buffer in the last chunk
unfoldable pub set_last : List Chunk → Buffer → List Chunk
set_last [] b = []
set_last (c ∷ []) b = record c { mem = b } ∷ []
set_last (c ∷ d ∷ cs) b = c ∷ set_last (d ∷ cs) b

abbrev default : ℕ → ℕ → ℕ
default n d = if n == 0 then d else n

abbrev at_least : ℕ → ℕ → ℕ
at_least n m = if ltb n m then m else n

abbrev pub is_mem : Option Chunk → Bool
is_mem none = false
is_mem (some c) = elim c.kind [ mem_chunk ↦ true | file_chunk ↦ false ]

abbrev pub mem_of : Option Chunk → Buffer
mem_of none = init
mem_of (some c) = c.mem

-- `cur_len + min_size`, at least `alloc_size`, less `cur_len`
unfoldable pub more_room : Buffer → ℕ → ℕ → ℕ
more_room b min_size alloc_size =
    (at_least (add_size (string_length b) min_size) alloc_size + size_mod - string_length b)
    % size_mod

module _ (h : Allocator) where
  unfoldable pub grow_last : Buffer → ℕ → ℕ → Outcome Buffer
  grow_last b min_size alloc_size =
      if string_is_empty b
      then (string_prepare_copy h b alloc_size >>= λ r. ok (r.0))
      else if ltb (string_space b) min_size
          && (leb b.size 256 && leb min_size (more_room b min_size alloc_size))
      then (string_prepare_append h b (more_room b min_size alloc_size) >>= λ r. ok (r.0))
      else ok b

  -- The queue, the offset of the memory in the block of the last chunk, and its size
  unfoldable pub get_new_memory : Chunkqueue → ℕ → Outcome (Chunkqueue × ℕ × ℕ)
  get_new_memory cq alloc_size = do
    let (c, cq') = chunkqueue_get_unused_chunk cq
    cq'' ← chunkqueue_append_chunk cq' (record c { kind = mem_chunk })
    (b, target) ← string_prepare_append h c.mem alloc_size
    ok (record cq'' { first = set_last cq''.first b }, string_length b, string_space b)

  unfoldable pub get_memory_of : Chunkqueue → ℕ → ℕ → Outcome (Chunkqueue × ℕ × ℕ)
  get_memory_of cq min_size alloc_size =
      if is_mem (last_chunk cq.first)
      then (do
        b ← grow_last (mem_of (last_chunk cq.first)) min_size alloc_size
        let cq' = record cq { first = set_last cq.first b }
        if leb min_size (string_space b)
            then ok (cq', string_length b, string_space b)
            else get_new_memory cq' alloc_size)
      else get_new_memory cq alloc_size

  unfoldable pub chunkqueue_get_memory : Chunkqueue → ℕ → ℕ → Outcome (Chunkqueue × ℕ × ℕ)
  chunkqueue_get_memory cq min_size alloc_size =
      get_memory_of cq (default min_size 1024)
        (at_least (default alloc_size 4096) (default min_size 1024))

unfoldable pub chunkqueue_use_memory : Chunkqueue → ℕ → Outcome Chunkqueue
chunkqueue_use_memory cq len = do
  let b = mem_of (last_chunk cq.first)
  force_assert (is_mem (last_chunk cq.first))
  if ltb 0 len
      then (commit b len >>= λ b'.
          ok (record cq { first = set_last cq.first b'; bytes_in = cq.bytes_in + len }))
      else if string_is_empty b
      then (reset b >>= λ b'. ok (record cq { first = set_last cq.first b' }))
      else ok cq
