-- ===== src/Connection/Arrival.antt =====
-- `connection_handle_read` (src/connections-glue.c): what a connection has after it.
use lighttpd.Base.{
  ℕ, ◌+◌, ◌≤◌, ◌<◌, ◌≡◌, refl, sym, ap, ◌∙◌, true, Option, none, some, [], ◌∷◌, ◌++◌, arith, ltb,
  ◌==◌, if◌then◌else◌, length, All,
}
use lighttpd.Memory.{ok, Bytes, size_mod, Allocator}
use lighttpd.Chunk.{Chunkqueue}
use lighttpd.Chunk.Octets.{mem_octets, stream, IsMem, mem_octets-append}
use lighttpd.Chunkqueue.Cache.{Gains}
use lighttpd.Chunkqueue.Reading.{Offers, get_memory_of-Given}
use lighttpd.Chunkqueue.Transfer.{get_memory_of, chunkqueue_get_memory}
use lighttpd.Connection.{
  State, eagain, eintr, Answer, got, failed, Connection, ReadResult, read_ok, read_error,
  read_closed, bytes_to_read,
}
use lighttpd.Connection.Extract.{flat_view}
use lighttpd.Connection.Header.{IsText-stream}
use lighttpd.Connection.Received.{IsInput, mem_octets_inj}

-- `read` gives no more than it is asked for, and memory has a place for it behind the bytes `s`.
abbrev pub Fits : Bytes → ℕ → Answer → Type 0
Fits s n a = (t : Bytes) → a ≡ got t → (length t ≤ n) × (length (s ++ t) + 1 < size_mod)

abbrev pub result_of : Bytes → ReadResult
result_of [] = read_closed
result_of (x ∷ s) = read_ok

-- What reading leaves as it was
abbrev pub Kept : Connection → Connection → Type 0
Kept con con' =
    (con'.state ≡ con.state)
    × (con'.http_status ≡ con.http_status)
    × (con'.request ≡ con.request)
    × (con'.request_content_queue ≡ con.request_content_queue)
    × (con'.content_length ≡ con.content_length)
    × (con'.stream_request ≡ con.stream_request)

pub Kept-refl : (con : Connection) → Kept con con
Kept-refl con = (refl, refl, refl, refl, refl, refl)

-- What a connection whose queue had the bytes `s` has after an answer
abbrev pub Reads : Connection → Bytes → Answer → Connection → ReadResult → Type 0
Reads con s (got t) con' result =
    (result ≡ result_of t)
    × IsInput con'.read_queue
    × (flat_view con'.read_queue.first ≡ s ++ t)
    × Kept con con'
Reads con s (failed eagain) con' result =
    (result ≡ read_ok)
    × IsInput con'.read_queue
    × (flat_view con'.read_queue.first ≡ s)
    × Kept con con'
Reads con s (failed eintr) con' result =
    (result ≡ read_ok)
    × IsInput con'.read_queue
    × (flat_view con'.read_queue.first ≡ s)
    × Kept con con'
Reads con s (failed _) con' result =
    (result ≡ read_error)
    × IsInput con'.read_queue
    × (flat_view con'.read_queue.first ≡ s)
    × (con'.state ≡ State.error)

bytes_to_read-bounds : (r : Option ℕ) → (4096 ≤ bytes_to_read r) × (bytes_to_read r ≤ 262144)
unfolding bytes_to_read
bytes_to_read-bounds none = (omega arith, omega arith)
bytes_to_read-bounds (some n) = (ground arith, ground arith)

-- A queue in memory that got some bytes
pub gained :
    (cq cq' : Chunkqueue) (t : Bytes)
    → IsInput cq
    → Gains cq (mem_octets t) cq'
    → All IsMem cq'.first
    → IsInput cq' × (flat_view cq'.first ≡ flat_view cq.first ++ t)
gained cq cq' t k g m = (
  record { queue = g.0; in_mem = m },
  mem_octets_inj (flat_view cq'.first) (flat_view cq.first ++ t) (
      sym (IsText-stream cq'.first m)
      ∙ g.1
      ∙ ap (λ o. o ++ mem_octets t) (IsText-stream cq.first k.in_mem)
      ∙ sym (mem_octets-append (flat_view cq.first) t)),
)

module _ (h : Allocator) (ample : (n : ℕ) → h.grants n ≡ true) where
  pub offered :
      (con : Connection) (ready : Option ℕ)
      → IsInput con.read_queue
      → (cq : Chunkqueue) × (target : ℕ) × (n : ℕ) × (chunkqueue_get_memory h con.read_queue 0
            (bytes_to_read ready)
          ≡ ok (cq, target, n))
        × Offers cq (stream con.read_queue.first) target n
        × IsInput cq
        × (flat_view cq.first ≡ flat_view con.read_queue.first)
        × (1024 ≤ n)
  unfolding chunkqueue_get_memory
  offered con ready k =
      let (lo, hi) = bytes_to_read-bounds ready in
      let size : (if ltb (if bytes_to_read ready == 0 then 4096 else bytes_to_read ready) 1024
            then 1024
            else (if bytes_to_read ready == 0 then 4096 else bytes_to_read ready))
          ≡ bytes_to_read ready =
        ground (arith, lo) in
      let (cq, target, n, run, o, more, mems) =
        get_memory_of-Given h ample con.read_queue 1024 (bytes_to_read ready) k.queue
          (omega (arith, lo)) (omega (arith, hi)) in
      let m = mems k.in_mem in
      (
        cq,
        target,
        n,
        ap (get_memory_of h con.read_queue 1024) size ∙ run,
        o,
        record { queue = o.queue; in_mem = m },
        mem_octets_inj (flat_view cq.first) (flat_view con.read_queue.first)
            (sym (IsText-stream cq.first m) ∙ o.same ∙ IsText-stream con.read_queue.first k.in_mem),
        more,
      )
