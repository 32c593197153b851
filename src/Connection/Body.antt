-- ===== src/Connection/Body.antt =====
-- The body of a request that is kept in memory, in `connection_handle_read_post_state`
-- (src/connections-glue.c).
use mathlib.Core.Path.{subst}
use lighttpd.Base.{
  ℕ, zero, suc, ◌+◌, ◌-◌, ◌≤◌, ◌≡◌, refl, sym, ap, ◌∙◌, inl, inr, Bool, true, false, List, [], ◌∷◌,
  arith, leb, ◌==◌, if◌then◌else◌, Bool-cases, length, take, drop, length-append,
}
use lighttpd.Memory.{ok, Bytes, Allocator}
use lighttpd.Chunk.{Chunkqueue}
use lighttpd.Chunk.Octets.{Octet, mem_octets, stream, length-mem_octets}
use lighttpd.Chunkqueue.Cache.{IsQueue, Gains}
use lighttpd.Chunkqueue.Empty.{chunkqueue_remove_finished_chunks_lem}
use lighttpd.Chunkqueue.Sent.{chunkqueue_steal-SameOut}
use lighttpd.Chunkqueue.Steal.{chunkqueue_steal-moves}
use lighttpd.Chunkqueue.Tempfile.{Disk}
use lighttpd.Connection.{
  State, connect, request_start, request_end, read_post, handle_request, response_start,
  response_end, Connection, ReadResult, read_ok, read_error, read_closed,
}
use lighttpd.Connection.Extract.{flat_view}
use lighttpd.Connection.Header.{IsText-stream}
use lighttpd.Connection.Post.{
  Handler, go_on, wait_for_event, take_body, content_ready, content_missing, body_state,
  receive_body,
}
use lighttpd.Connection.Received.{IsInput, finished-IsInput}

length-take_rest : (n : ℕ) (xs : List Octet) → length (take n xs) ≡ length xs - (length xs - n)
length-take_rest zero xs = omega arith
length-take_rest (suc n) [] = omega arith
length-take_rest (suc n) (x ∷ xs) = omega (arith, length-take_rest n xs)

-- Whether a body of `len` bytes is complete after `n` bytes more
abbrev pub is_complete : Chunkqueue → ℕ → ℕ → Bool
is_complete cq len n = leb len (cq.bytes_in + n)

-- With the whole body there, reading it gives way to handling the request.
abbrev pub state_after : Bool → State → State
state_after true read_post = handle_request
state_after true st = st
state_after false st = st

content_ready-state_after : (st : State) → content_ready st ≡ state_after true st
content_ready-state_after connect = refl
content_ready-state_after request_start = refl
content_ready-state_after State.read = refl
content_ready-state_after request_end = refl
content_ready-state_after read_post = refl
content_ready-state_after handle_request = refl
content_ready-state_after response_start = refl
content_ready-state_after State.write = refl
content_ready-state_after response_end = refl
content_ready-state_after State.error = refl
content_ready-state_after State.close = refl

abbrev pub answer_after : Bool → Bool → ReadResult → Handler
answer_after true on result = go_on
answer_after false on read_closed = Handler.error
answer_after false on result = if on then go_on else wait_for_event

-- What becomes of the bytes `s` of the read queue, and what is answered, by the content queue, the
-- length of the content, the state and the bit FDEVENT_STREAM_REQUEST before
pub record PostedFrom (cq : Chunkqueue) (len : ℕ) (st : State) (on : Bool) (s : Bytes)
    (result : ReadResult) (con' : Connection) (answer : Handler) : Type 0 where
  pub body : Gains cq (take (len - cq.bytes_in) (mem_octets s)) con'.request_content_queue
  pub queue : IsQueue con'.read_queue
  pub left : stream con'.read_queue.first ≡ drop (len - cq.bytes_in) (mem_octets s)
  pub state_is : con'.state ≡ state_after (is_complete cq len (length s)) st
  pub answer_is : answer ≡ answer_after (is_complete cq len (length s)) on result

abbrev pub Posted : Connection → Bytes → ReadResult → Connection → Handler → Type 0
Posted con s result con' answer =
    PostedFrom con.request_content_queue con.content_length con.state con.stream_request s result
      con' answer

-- A body that is not received yet, and may be kept in memory
pub record IsAwaited (con : Connection) : Type 0 where
  pub input : IsInput con.read_queue
  pub content : IsQueue con.request_content_queue
  pub not_over : con.request_content_queue.bytes_in ≤ con.content_length
  pub small : con.content_length ≤ 65536

body_state_kept :
    (con : Connection) (result : ReadResult)
    → ((body_state con result).0.request_content_queue ≡ con.request_content_queue)
      × ((body_state con result).0.read_queue ≡ con.read_queue)
      × ((body_state con result).0.state
          ≡ state_after (con.request_content_queue.bytes_in == con.content_length) con.state)
      × ((body_state con result).1
          ≡ answer_after
              (con.request_content_queue.bytes_in == con.content_length)
              con.stream_request
              result)
unfolding body_state
body_state_kept con result =
    elim (Bool-cases (con.request_content_queue.bytes_in == con.content_length)) [
      | inl full ↦ rw full (refl, refl, content_ready-state_after con.state, refl)
      | inr some_missing ↦ rw some_missing (waiting result)
    ]
  where
    waiting :
        (r : ReadResult)
        → ((content_missing con r).0.request_content_queue ≡ con.request_content_queue)
          × ((content_missing con r).0.read_queue ≡ con.read_queue)
          × ((content_missing con r).0.state ≡ con.state)
          × ((content_missing con r).1 ≡ answer_after false con.stream_request r)
    waiting read_closed = (refl, refl, refl, refl)
    waiting read_ok = (refl, refl, refl, refl)
    waiting read_error = (refl, refl, refl, refl)

module _ (h : Allocator) (ample : (n : ℕ) → h.grants n ≡ true) (disk : Disk) where
  pub receive_body-Posted :
      (fuel : ℕ) (con : Connection) (result : ReadResult) (s : Bytes)
      → IsAwaited con
      → flat_view con.read_queue.first ≡ s
      → (con' : Connection) × (answer : Handler) × (receive_body h disk fuel con result
          ≡ ok (con', answer))
        × Posted con s result con' answer
  unfolding receive_body take_body
  receive_body-Posted fuel con result s w e =
      let old = con.request_content_queue in
      let len = con.content_length - old.bytes_in in
      let (cq, run, k1, same) = finished-IsInput con.read_queue w.input in
      let (d, src, run2, g, q2, left) =
        chunkqueue_steal-moves h ample old cq len w.content k1.queue in
      let (cq', run3, q3, same3, ds, chain) = chunkqueue_remove_finished_chunks_lem src q2 in
      let con3 = record con { request_content_queue = d; read_queue = cq' } in
      let text : stream cq.first ≡ mem_octets s =
        IsText-stream cq.first k1.in_mem ∙ ap mem_octets (same ∙ e) in
      let out : d.bytes_out ≡ old.bytes_out = rw run2 at (chunkqueue_steal-SameOut h old cq len) in
      let gain : Gains old (take len (mem_octets s)) d =
        subst (λ o. Gains old (take len o) d) text g in
      let decided : (d.bytes_in == con.content_length)
          ≡ is_complete old con.content_length (length s) =
        ground (
          arith,
          out,
          (gain.0).balance,
          w.content.balance,
          w.not_over,
          ap length (gain.1),
          length-append (stream old.first) (take len (mem_octets s)),
          length-take_rest len (mem_octets s),
          length-mem_octets s,
        ) in
      let (eq, er, es, ea) = body_state_kept con3 result in
      (
        (body_state con3 result).0,
        (body_state con3 result).1,
        let small : leb con.content_length 65536 ≡ true = ground (arith, w.small) in
            rw (run, small) (rw (run2, run3) refl),
        record {
          body = subst (Gains old (take len (mem_octets s))) (sym eq) gain;
          queue = subst IsQueue (sym er) q3;
          left = ap (λ (q : Chunkqueue). stream q.first) er ∙ same3 ∙ left ∙ ap (drop len) text;
          state_is = es ∙ ap (λ b. state_after b con.state) decided;
          answer_is = ea ∙ ap (λ b. answer_after b con.stream_request result) decided;
        },
      )
