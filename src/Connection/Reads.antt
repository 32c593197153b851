-- ===== src/Connection/Reads.antt =====
-- `connection_handle_read` (src/connections-glue.c), by what `read` answers.
use mathlib.Core.Path.{subst}
use lighttpd.Base.{
  ℕ, ◌≤◌, ◌≡◌, refl, sym, ap, ◌∙◌, inl, inr, true, false, Option, List, [], ◌∷◌, ◌++◌, append-nil,
  arith, ◌==◌, if◌then◌else◌, Bool-cases, length,
}
use lighttpd.Memory.{ok, ◌>>=◌, Bytes, Allocator, memcpy}
use lighttpd.Chunk.{Chunk, Chunkqueue}
use lighttpd.Chunk.Octets.{Octet, stream}
use lighttpd.Chunkqueue.LastChunk.{last_chunk-append, set_last-append}
use lighttpd.Chunkqueue.Reading.{fill_memory, Offers}
use lighttpd.Chunkqueue.Reading.Filled.{chunkqueue_use_memory-Gains}
use lighttpd.Chunkqueue.Transfer.{last_chunk, set_last, mem_of, chunkqueue_use_memory}
use lighttpd.Connection.{
  State, Errno, eagain, eintr, econnreset, other, Answer, got, failed, Socket, Clock, Connection,
  ReadResult, read_ok, read_error, read_failed, read_done, take_answer, connection_handle_read,
  read_if_readable,
}
use lighttpd.Connection.Arrival.{Fits, result_of, Kept, Kept-refl, Reads, gained, offered}
use lighttpd.Connection.Extract.{flat_view}
use lighttpd.Connection.Received.{IsInput}

-- What the bytes of an answer change of a connection
read_done-Kept :
    (con : Connection) (n : ℕ) (t : Bytes)
    → ((read_done con n (length t)).0.read_queue ≡ con.read_queue)
      × Kept con ((read_done con n (length t)).0)
      × ((read_done con n (length t)).1 ≡ result_of t)
unfolding read_done
read_done-Kept con n [] = (refl, Kept-refl con, refl)
read_done-Kept con n (x ∷ t) =
    let some_there : (length (x ∷ t) == 0) ≡ false = ground arith in
    elim (Bool-cases (length (x ∷ t) == n)) [
      | inl e ↦ rw (some_there, e) (refl, (refl, refl, refl, refl, refl, refl), refl)
      | inr e ↦ rw (some_there, e) (refl, (refl, refl, refl, refl, refl, refl), refl)
    ]

-- No byte is filled in where none came
fill_nothing :
    (cq : Chunkqueue) (o : List Octet) (target n : ℕ)
    → Offers cq o target n
    → fill_memory cq target [] ≡ ok cq
unfolding fill_memory memcpy
fill_nothing cq o target n w =
    let end = ap last_chunk w.chain ∙ last_chunk-append w.front w.end in
    ap (λ (c : Option Chunk). ok (record cq { first = set_last cq.first (mem_of c) })) end
    ∙ ap (λ (cs : List Chunk). ok (record cq { first = cs }))
        (ap (λ cs. set_last cs w.end.mem) w.chain
          ∙ set_last-append w.front w.end w.end.mem
          ∙ sym w.chain)

module _ (h : Allocator) (ample : (n : ℕ) → h.grants n ≡ true) where
  -- Bytes that come into the room that the queue offers
  took :
      (con : Connection) (o : List Octet) (target n : ℕ) (t : Bytes)
      → IsInput con.read_queue
      → Offers con.read_queue o target n
      → length t ≤ n
      → (con' : Connection) × (result : ReadResult) × (take_answer h con target n (got t)
          ≡ ok (con', result))
        × Reads con (flat_view con.read_queue.first) (got t) con' result
  unfolding take_answer
  took con o target n t k w le =
      let (cq1, run, cq2, run2, g, m) =
        chunkqueue_use_memory-Gains con.read_queue o target n t w le in
      let con2 = record con { read_queue = cq2 } in
      let (eq, kept, e) = read_done-Kept con2 n t in
      let (k2, same) = gained con.read_queue cq2 t k g (m k.in_mem) in
      (
        (read_done con2 n (length t)).0,
        (read_done con2 n (length t)).1,
        rw (run, run2) refl,
        (e, subst IsInput (sym eq) k2, ap (λ (q : Chunkqueue). flat_view q.first) eq ∙ same, kept),
      )

  -- No byte comes.
  none_came :
      (con : Connection) (o : List Octet) (target n : ℕ) (e : Errno)
      → IsInput con.read_queue
      → Offers con.read_queue o target n
      → (cq : Chunkqueue) × (take_answer h con target n (failed e)
          ≡ ok (read_failed (record con { read_queue = cq }) e))
        × IsInput cq
        × (flat_view cq.first ≡ flat_view con.read_queue.first)
  unfolding take_answer
  none_came con o target n e k w =
      let (cq1, run, cq2, run2, g, m) =
        chunkqueue_use_memory-Gains con.read_queue o target n [] w (ground arith) in
      let same : cq1 ≡ con.read_queue =
        let filled = fill_nothing con.read_queue o target n w in cc in
      let run3 : chunkqueue_use_memory con.read_queue 0 ≡ ok cq2 =
        subst (λ q. chunkqueue_use_memory q 0 ≡ ok cq2) same run2 in
      let (k2, same2) = gained con.read_queue cq2 [] k g (m k.in_mem) in
      (cq2, rw run3 refl, k2, same2 ∙ append-nil (flat_view con.read_queue.first))

  answered :
      (con : Connection) (o : List Octet) (target n : ℕ) (s : Bytes) (a : Answer)
      → IsInput con.read_queue
      → Offers con.read_queue o target n
      → flat_view con.read_queue.first ≡ s
      → Fits s n a
      → (con' : Connection) × (result : ReadResult) × (take_answer h con target n a
          ≡ ok (con', result))
        × Reads con s a con' result
  unfolding read_failed
  answered con o target n s (got t) k w e f =
      let (con', result, run, r) = took con o target n t k w ((f t refl).0) in
      (con', result, run, (r.0, r.1, r.2 ∙ ap (λ u. u ++ t) e, r.3))
  answered con o target n s (failed eagain) k w e f =
      let (cq, run, k1, same) = none_came con o target n eagain k w in
      (
        record con { is_readable = false; read_queue = cq },
        read_ok,
        run,
        (refl, k1, same ∙ e, Kept-refl con),
      )
  answered con o target n s (failed eintr) k w e f =
      let (cq, run, k1, same) = none_came con o target n eintr k w in
      (
        record con { is_readable = true; read_queue = cq },
        read_ok,
        run,
        (refl, k1, same ∙ e, Kept-refl con),
      )
  answered con o target n s (failed econnreset) k w e f =
      let (cq, run, k1, same) = none_came con o target n econnreset k w in
      (
        record con { is_readable = false; state = State.error; read_queue = cq },
        read_error,
        run,
        (refl, k1, same ∙ e, refl),
      )
  answered con o target n s (failed other) k w e f =
      let (cq, run, k1, same) = none_came con o target n other k w in
      (
        record con { is_readable = false; state = State.error; read_queue = cq },
        read_error,
        run,
        (refl, k1, same ∙ e, refl),
      )

  -- Reading from a connection that is readable
  pub read_if_readable-Reads :
      (clock : Clock) (socket : Socket) (con : Connection)
      → IsInput con.read_queue
      → con.is_readable ≡ true
      → ((n : ℕ) → Fits (flat_view con.read_queue.first) n (socket.answer n))
      → (con' : Connection) × (result : ReadResult) × (mem_len : ℕ) × (read_if_readable h clock
            socket con
          ≡ ok (con', result))
        × (1024 ≤ mem_len)
        × Reads
            (record con { read_idle_ts = clock.cur_ts })
            (flat_view con.read_queue.first)
            (socket.answer mem_len)
            con'
            result
  unfolding read_if_readable connection_handle_read
  read_if_readable-Reads clock socket con k readable f =
      let (cq, target, n, run, w, k1, same, more) = offered h ample con socket.ready k in
      let started = record con { read_idle_ts = clock.cur_ts } in
      let (con', result, run2, r) =
        answered (record started { read_queue = cq }) (stream con.read_queue.first) target n
          (flat_view con.read_queue.first) (socket.answer n) k1 w same (f n) in
      (
        con',
        result,
        n,
        ap (λ b. if b then connection_handle_read h socket started else ok (con, read_ok)) readable
            ∙ ap
                (λ m. m >>= λ (cq, target, n).
                  take_answer h (record started { read_queue = cq }) target n (socket.answer n))
                run
            ∙ run2,
        more,
        reads_of (socket.answer n) cq con' (flat_view con.read_queue.first) result r,
      )
    where
      reads_of :
          (a : Answer) (cq : Chunkqueue) (con' : Connection) (s : Bytes) (result : ReadResult)
          → Reads (record con { read_idle_ts = clock.cur_ts; read_queue = cq }) s a con' result
          → Reads (record con { read_idle_ts = clock.cur_ts }) s a con' result
      reads_of (got t) cq con' s result r = r
      reads_of (failed eagain) cq con' s result r = r
      reads_of (failed eintr) cq con' s result r = r
      reads_of (failed econnreset) cq con' s result r = r
      reads_of (failed other) cq con' s result r = r
