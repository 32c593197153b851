-- ===== src/Chunkqueue/Sent.antt =====
-- `bytes_out` of a queue that gets chunks (src/chunk.c)
use lighttpd.Base.{ℕ, ◌-◌, ◌≡◌, refl, ◌∙◌, List, [], ◌∷◌, leb, ◌==◌, length, take, drop}
use lighttpd.Memory.{Allocator}
use lighttpd.Buffer.{copy_string_len, copy_buffer}
use lighttpd.Chunk.{
  Kind, mem_chunk, file_chunk, Chunk, Chunkqueue, chunk_remaining_length,
  chunkqueue_push_unused_chunk, take_unused, chunkqueue_get_unused_chunk,
}
use lighttpd.Chunkqueue.{
  chunkqueue_append_chunk, append_file_chunk, chunkqueue_append_file, chunkqueue_append_mem,
}
use lighttpd.Chunkqueue.Transfer.{append_part, steal_chain, chunkqueue_steal}
use lighttpd.Memory.Ends.{IfOk, bind-IfOk, if-IfOk, bind-IfOk_after}

abbrev SameOut : ℕ → Chunkqueue → Type 0
SameOut n cq = cq.bytes_out ≡ n

taken-SameOut : (cq : Chunkqueue) (us : List Chunk) → SameOut cq.bytes_out ((take_unused cq us).1)
taken-SameOut cq [] = refl
taken-SameOut cq (c ∷ us) = refl

append_chunk-SameOut :
    (n : ℕ) (cq : Chunkqueue) (c : Chunk)
    → SameOut n cq
    → IfOk (SameOut n) (chunkqueue_append_chunk cq c)
unfolding chunkqueue_append_chunk
append_chunk-SameOut n cq c e = bind-IfOk (SameOut n) (chunk_remaining_length c) _ (λ m. e)

module _ (h : Allocator) where
  append_part-SameOut :
      (n : ℕ) (cq : Chunkqueue) (c : Chunk) (k : Kind) (len : ℕ)
      → SameOut n cq
      → IfOk (SameOut n) (append_part h cq c k len)
  unfolding append_part chunkqueue_append_mem chunkqueue_append_file append_file_chunk
      chunkqueue_get_unused_chunk
  append_part-SameOut n cq c mem_chunk len e =
      if-IfOk (SameOut n) (length (take len (drop c.offset c.mem.ptr)) == 0) _ _ e (
        bind-IfOk (SameOut n)
          (copy_string_len h (take_unused cq cq.unused).0.mem (take len (drop c.offset c.mem.ptr)))
          _
          (λ m.
            append_chunk-SameOut n (take_unused cq cq.unused).1 _ (taken-SameOut cq cq.unused ∙ e)))
  append_part-SameOut n cq c file_chunk len e = if-IfOk (SameOut n) (len == 0) _ _ e (
      bind-IfOk (SameOut n) (copy_buffer h (take_unused cq cq.unused).0.file_name c.file_name) _
        (λ m.
          append_chunk-SameOut n (take_unused cq cq.unused).1 _ (taken-SameOut cq cq.unused ∙ e)))

  abbrev SameOutFirst : ℕ → Chunkqueue × Chunkqueue → Type 0
  SameOutFirst n r = SameOut n r.0

  steal_chain-SameOut :
      (n : ℕ) (dest src : Chunkqueue) (cs : List Chunk) (len : ℕ)
      → SameOut n dest
      → IfOk (SameOutFirst n) (steal_chain h dest src cs len)
  unfolding steal_chain
  steal_chain-SameOut n dest src [] len e = e
  steal_chain-SameOut n dest src (c ∷ cs) len e =
      bind-IfOk (SameOutFirst n) (chunk_remaining_length c) _ λ clen.
        if-IfOk (SameOutFirst n) (len == 0) _ _ e (
          if-IfOk (SameOutFirst n) (clen == 0) _ _
            (bind-IfOk (SameOutFirst n) (chunkqueue_push_unused_chunk src c) _
              (λ src'. steal_chain-SameOut n dest src' cs len e))
            (if-IfOk (SameOutFirst n) (leb clen len) _ _
              (bind-IfOk_after (SameOut n) (SameOutFirst n) (chunkqueue_append_chunk dest c) _
                (append_chunk-SameOut n dest c e)
                (λ dest' e'. steal_chain-SameOut n dest' _ cs (len - clen) e'))
              (bind-IfOk_after (SameOut n) (SameOutFirst n) (append_part h dest c c.kind len) _
                (append_part-SameOut n dest c c.kind len e) (λ dest' e'. e'))))

  -- Stealing does not change what the target has sent.
  pub chunkqueue_steal-SameOut :
      (dest src : Chunkqueue) (len : ℕ)
      → IfOk
          (λ (r : Chunkqueue × Chunkqueue). r.0.bytes_out ≡ dest.bytes_out)
          (chunkqueue_steal h dest src len)
  unfolding chunkqueue_steal
  chunkqueue_steal-SameOut dest src len =
      steal_chain-SameOut dest.bytes_out dest src src.first len refl
