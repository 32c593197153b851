-- ===== src/Connection/HeaderRead.antt =====
-- The whole of `connection_handle_read_state` (src/connections.c), reading included.
use mathlib.Core.Path.{subst}
use lighttpd.Base.{
  ℕ, ◌+◌, ◌≤◌, ◌<◌, ◌≡◌, refl, sym, ap, Bool, true, false, [], ◌∷◌, ◌++◌, arith, length,
}
use lighttpd.Memory.{ok, Bytes, size_mod, Allocator}
use lighttpd.Buffer.Holds.{IsSized}
use lighttpd.Chunkqueue.{chunkqueue_is_empty}
use lighttpd.Connection.{
  State, eagain, eintr, econnreset, other, Answer, got, failed, Socket, Clock, Connection,
  ReadResult, read_ok, read_closed, scan_queue, after_read, connection_handle_read_state,
}
use lighttpd.Connection.Arrival.{Fits, result_of, Kept, Reads}
use lighttpd.Connection.Extract.{flat_view, header_length}
use lighttpd.Connection.Reads.{read_if_readable-Reads}
use lighttpd.Connection.Received.{IsInput, Handled, Handled-same}
use lighttpd.Connection.Scan.{scan_queue_lem}

-- The connection after bytes, or an error, came behind the bytes `s`
abbrev pub Answered : Connection → Bytes → Answer → Connection → Bool → Type 0
Answered con s (got t) con' done =
    (done ≡ true)
    × IsInput con'.read_queue
    × Handled con (result_of t) (s ++ t) (header_length (s ++ t)) con'
Answered con s (failed eagain) con' done =
    (done ≡ true) × IsInput con'.read_queue × Handled con read_ok s (header_length s) con'
Answered con s (failed eintr) con' done =
    (done ≡ true) × IsInput con'.read_queue × Handled con read_ok s (header_length s) con'
Answered con s (failed _) con' done =
    (done ≡ false) × (con'.state ≡ State.error) × (flat_view con'.read_queue.first ≡ s)

module _ (h : Allocator) (ample : (n : ℕ) → h.grants n ≡ true) where
  -- The search after reading has given the bytes `s`
  searched :
      (clock : Clock) (start : Bool) (con con1 : Connection) (result : ReadResult) (s : Bytes)
      → IsInput con1.read_queue
      → flat_view con1.read_queue.first ≡ s
      → Kept con con1
      → IsSized con.request
      → length s + 1 < size_mod
      → (con' : Connection) × (scan_queue h clock start con1 result ≡ ok con')
        × IsInput con'.read_queue
        × Handled con result s (header_length s) con'
  searched clock start con con1 result s k e kept z lt =
      let (con', run, k', d) =
        scan_queue_lem h ample clock start con1 result k (subst IsSized (sym (kept.2)) z)
          (omega (arith, lt, ap length e)) in
      (
        con',
        run,
        k',
        Handled-same con con1 con' result s (header_length s) (kept.0) (kept.1) (kept.2)
            (subst (λ u. Handled con1 result u (header_length u) con') e d),
      )

  after_answer :
      (clock : Clock) (start : Bool) (con con1 : Connection) (s : Bytes) (a : Answer)
      (result : ReadResult)
      → IsSized con.request
      → length s + 1 < size_mod
      → ((t : Bytes) → a ≡ got t → length (s ++ t) + 1 < size_mod)
      → Reads con s a con1 result
      → (con' : Connection) × (done : Bool) × (after_read h clock start (con1, result)
          ≡ ok (con', done))
        × Answered con s a con' done
  unfolding after_read
  after_answer clock start con con1 s (got []) result z lt f (e, k, same, kept) =
      let (con', run, k', d) =
        searched clock start con con1 read_closed (s ++ []) k same kept z (f [] refl) in
      (con', true, rw e (rw run refl), (refl, k', d))
  after_answer clock start con con1 s (got (x ∷ t)) result z lt f (e, k, same, kept) =
      let (con', run, k', d) =
        searched clock start con con1 read_ok (s ++ (x ∷ t)) k same kept z (f (x ∷ t) refl) in
      (con', true, rw e (rw run refl), (refl, k', d))
  after_answer clock start con con1 s (failed eagain) result z lt f (e, k, same, kept) =
      let (con', run, k', d) = searched clock start con con1 read_ok s k same kept z lt in
      (con', true, rw e (rw run refl), (refl, k', d))
  after_answer clock start con con1 s (failed eintr) result z lt f (e, k, same, kept) =
      let (con', run, k', d) = searched clock start con con1 read_ok s k same kept z lt in
      (con', true, rw e (rw run refl), (refl, k', d))
  after_answer clock start con con1 s (failed econnreset) result z lt f (e, k, same, st) =
      (con1, false, rw e refl, (refl, st, same))
  after_answer clock start con con1 s (failed other) result z lt f (e, k, same, st) =
      (con1, false, rw e refl, (refl, st, same))

  -- With memory granted, where the read queue keeps its invariant and is in memory, the size field
  -- of the request buffer is that of its block, the connection is readable, and `read` answers no
  -- more than it is asked for and no more than memory holds, reading returns. If bytes came, the
  -- bytes of the queue followed by them are searched for the first `\r\n\r\n`, however they lie in
  -- chunks: with one, the request is all up to its end, the queue keeps the rest, and the state is
  -- the end of the request. With none the request and the bytes stay, the answer is 414 if there
  -- are more than 64 KB, and the state is that of an error if the peer has closed. After EAGAIN or
  -- EINTR the bytes of the queue alone are searched, after another error the state is that of an
  -- error, the bytes stay, and -1 is returned.
  pub connection_handle_read_state_lem :
      (clock : Clock) (socket : Socket) (con : Connection)
      → IsInput con.read_queue
      → IsSized con.request
      → con.is_readable ≡ true
      → length (flat_view con.read_queue.first) + 1 < size_mod
      → ((n : ℕ) → Fits (flat_view con.read_queue.first) n (socket.answer n))
      → (con' : Connection) × (done : Bool) × (mem_len : ℕ) × (connection_handle_read_state h clock
            socket con
          ≡ ok (con', done))
        × (1024 ≤ mem_len)
        × Answered con (flat_view con.read_queue.first) (socket.answer mem_len) con' done
  unfolding connection_handle_read_state
  connection_handle_read_state_lem clock socket con k z readable lt f =
      let (con1, result, n, run, more, r) =
        read_if_readable-Reads h ample clock socket con k readable f in
      let s = flat_view con.read_queue.first in
      let started = record con { read_idle_ts = clock.cur_ts } in
      let (con', done, run2, d) =
        after_answer clock (chunkqueue_is_empty con.read_queue) started con1 s (socket.answer n)
          result z lt (λ t e. (f n t e).1) r in
      (con', done, n, rw run run2, more, d)
