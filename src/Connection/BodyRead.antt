-- ===== src/Connection/BodyRead.antt =====
-- The whole of `connection_handle_read_post_state` (src/connections-glue.c), reading included, for a
-- body that is kept in memory.
use mathlib.Core.Path.{subst}
use lighttpd.Base.{ℕ, ◌≤◌, ◌≡◌, refl, sym, ap, true, [], ◌∷◌, ◌++◌, arith}
use lighttpd.Memory.{ok, Bytes, Allocator}
use lighttpd.Chunk.{Chunkqueue}
use lighttpd.Chunkqueue.Cache.{IsQueue}
use lighttpd.Chunkqueue.Tempfile.{Disk}
use lighttpd.Connection.{
  State, eagain, eintr, econnreset, other, Answer, got, failed, Socket, Clock, Connection,
  ReadResult, read_ok, read_closed,
}
use lighttpd.Connection.Arrival.{Fits, result_of, Kept, Reads}
use lighttpd.Connection.Body.{PostedFrom, Posted, IsAwaited, receive_body-Posted}
use lighttpd.Connection.Extract.{flat_view}
use lighttpd.Connection.Post.{Handler, receive_body, after_post, connection_handle_read_post_state}
use lighttpd.Connection.Reads.{read_if_readable-Reads}
use lighttpd.Connection.Received.{IsInput}

-- After bytes, or an error, came behind the bytes `s`
abbrev pub PostAnswered : Connection → Bytes → Answer → Connection → Handler → Type 0
PostAnswered con s (got t) con' answer = Posted con (s ++ t) (result_of t) con' answer
PostAnswered con s (failed eagain) con' answer = Posted con s read_ok con' answer
PostAnswered con s (failed eintr) con' answer = Posted con s read_ok con' answer
PostAnswered con s (failed _) con' answer =
    (answer ≡ Handler.error) × (con'.state ≡ State.error) × (flat_view con'.read_queue.first ≡ s)

IsAwaited-Kept :
    (con con1 : Connection)
    → IsAwaited con
    → Kept con con1
    → IsInput con1.read_queue
    → IsAwaited con1
IsAwaited-Kept con con1 w kept k = record {
  input = k;
  content = subst IsQueue (sym (kept.3)) w.content;
  not_over = omega (arith, w.not_over, kept.4, ap (λ (q : Chunkqueue). q.bytes_in) (kept.3));
  small = omega (arith, w.small, kept.4);
}

Posted-Kept :
    (con con1 : Connection) (s : Bytes) (result : ReadResult) (con' : Connection) (answer : Handler)
    → Kept con con1
    → Posted con1 s result con' answer
    → Posted con s result con' answer
Posted-Kept con con1 s result con' answer kept p =
    subst (λ q. PostedFrom q con.content_length con.state con.stream_request s result con' answer)
      (kept.3)
      (subst
        (λ n.
          PostedFrom con1.request_content_queue n con.state con.stream_request s result con' answer)
        (kept.4)
        (subst
          (λ st.
            PostedFrom con1.request_content_queue con1.content_length st con.stream_request s result
              con' answer)
          (kept.0)
          (subst
            (λ b.
              PostedFrom con1.request_content_queue con1.content_length con1.state b s result con'
                answer)
            (kept.5) p)))

module _ (h : Allocator) (ample : (n : ℕ) → h.grants n ≡ true) (disk : Disk) where
  received :
      (fuel : ℕ) (con con1 : Connection) (result : ReadResult) (s : Bytes)
      → IsAwaited con
      → IsInput con1.read_queue
      → flat_view con1.read_queue.first ≡ s
      → Kept con con1
      → (con' : Connection) × (answer : Handler) × (receive_body h disk fuel con1 result
          ≡ ok (con', answer))
        × Posted con s result con' answer
  received fuel con con1 result s w k e kept =
      let (con', answer, run, p) =
        receive_body-Posted h ample disk fuel con1 result s (IsAwaited-Kept con con1 w kept k) e in
      (con', answer, run, Posted-Kept con con1 s result con' answer kept p)

  after_post_answer :
      (fuel : ℕ) (con con1 : Connection) (s : Bytes) (a : Answer) (result : ReadResult)
      → IsAwaited con
      → Reads con s a con1 result
      → (con' : Connection) × (answer : Handler) × (after_post h disk fuel (con1, result)
          ≡ ok (con', answer))
        × PostAnswered con s a con' answer
  unfolding after_post
  after_post_answer fuel con con1 s (got []) result w (e, k, same, kept) =
      let (con', answer, run, p) = received fuel con con1 read_closed (s ++ []) w k same kept in
      (con', answer, rw e run, p)
  after_post_answer fuel con con1 s (got (x ∷ t)) result w (e, k, same, kept) =
      let (con', answer, run, p) = received fuel con con1 read_ok (s ++ (x ∷ t)) w k same kept in
      (con', answer, rw e run, p)
  after_post_answer fuel con con1 s (failed eagain) result w (e, k, same, kept) =
      let (con', answer, run, p) = received fuel con con1 read_ok s w k same kept in
      (con', answer, rw e run, p)
  after_post_answer fuel con con1 s (failed eintr) result w (e, k, same, kept) =
      let (con', answer, run, p) = received fuel con con1 read_ok s w k same kept in
      (con', answer, rw e run, p)
  after_post_answer fuel con con1 s (failed econnreset) result w (e, k, same, st) =
      (con1, Handler.error, rw e refl, (refl, st, same))
  after_post_answer fuel con con1 s (failed other) result w (e, k, same, st) =
      (con1, Handler.error, rw e refl, (refl, st, same))

  -- With memory granted, where the read queue keeps its invariant and is in memory, the content
  -- queue keeps its invariant and has got no more than the content length, which is at most 64 KB,
  -- the connection is readable, and `read` answers no more than it is asked for and than memory
  -- holds, the function returns. The bytes of the read queue, followed by those that came, are
  -- taken in their order behind the content, up to the content length, and the read queue keeps
  -- the others, the next request. With all of it there the answer is to go on, and the state of
  -- reading the body gives way to that of handling the request. With some missing the state stays,
  -- and the answer is an error if the peer has closed, and else to wait, or to go on if the body is
  -- streamed. After an error other than EAGAIN and EINTR the answer
  -- and the state are an error, and the bytes stay.
  pub connection_handle_read_post_state_lem :
      (fuel : ℕ) (clock : Clock) (socket : Socket) (con : Connection)
      → IsAwaited con
      → con.is_readable ≡ true
      → ((n : ℕ) → Fits (flat_view con.read_queue.first) n (socket.answer n))
      → (con' : Connection) × (answer : Handler) × (mem_len : ℕ)
        × (connection_handle_read_post_state h disk fuel clock socket con ≡ ok (con', answer))
        × (1024 ≤ mem_len)
        × PostAnswered con (flat_view con.read_queue.first) (socket.answer mem_len) con' answer
  unfolding connection_handle_read_post_state
  connection_handle_read_post_state_lem fuel clock socket con w readable f =
      let (con1, result, n, run, more, r) =
        read_if_readable-Reads h ample clock socket con w.input readable f in
      let started = record con { read_idle_ts = clock.cur_ts } in
      let awaited : IsAwaited started = record {
        input = w.input;
        content = w.content;
        not_over = w.not_over;
        small = w.small;
      } in
      let (con', answer, run2, p) =
        after_post_answer fuel started con1 (flat_view con.read_queue.first) (socket.answer n)
          result awaited r in
      (con', answer, n, rw run run2, more, stay (socket.answer n) con' answer p)
    where
      stay :
          (a : Answer) (con' : Connection) (answer : Handler)
          → PostAnswered
              (record con { read_idle_ts = clock.cur_ts })
              (flat_view con.read_queue.first)
              a
              con'
              answer
          → PostAnswered con (flat_view con.read_queue.first) a con' answer
      stay (got t) con' answer p = p
      stay (failed eagain) con' answer p = p
      stay (failed eintr) con' answer p = p
      stay (failed econnreset) con' answer p = p
      stay (failed other) con' answer p = p
