-- ===== src/Connection/Scan.antt =====
-- What follows the reading in `connection_handle_read_state` (src/connections.c).
use mathlib.Core.Path.{subst}
use lighttpd.Base.{
  ℕ, ◌+◌, ◌≤◌, ◌<◌, ◌≡◌, refl, sym, ap, ◌∙◌, inl, Bool, true, Option, none, some, List, [], ◌∷◌,
  arith, length, take, drop,
}
use lighttpd.Memory.{ok, Bytes, size_mod, Allocator}
use lighttpd.Buffer.Holds.{IsSized, Stores}
use lighttpd.Buffer.Resize.{reset_lem}
use lighttpd.Chunk.{Chunk, Chunkqueue}
use lighttpd.Chunk.Octets.{length-mem_octets, length-drop}
use lighttpd.Connection.{
  State, Clock, Connection, ReadResult, note_start, no_header_end, copy_header, take_header,
  look_for_header, scan_queue,
}
use lighttpd.Connection.Extract.{flat_view, header_length, Placed, header_length-le}
use lighttpd.Connection.Header.{IsText, IsText-stream, copy_header_lem}
use lighttpd.Connection.HeaderEnd.{view, find_header_end}
use lighttpd.Connection.Received.{
  IsInput, finished-IsInput, Handled, Handled-same, Handled-left, search_none, search_some, sum_of,
  kept_first, kept_request, kept_state, kept-IsInput, note_start_same,
}
use lighttpd.Splay.{sized}

module _ (h : Allocator) (ample : (n : ℕ) → h.grants n ≡ true) where
  take_header_lem :
      (con : Connection) (i o n : ℕ) (c : Chunk) (cs : List Chunk)
      → IsInput con.read_queue
      → con.read_queue.first ≡ c ∷ cs
      → IsSized con.request
      → Placed 0 0 (view c) cs i o n
      → n ≤ length (flat_view con.read_queue.first)
      → n + 1 < size_mod
      → (con' : Connection) × (take_header h con (i, o) ≡ ok con')
        × IsInput con'.read_queue
        × (con'.state ≡ State.request_end)
        × Stores con'.request (take n (flat_view con.read_queue.first))
        × (flat_view con'.read_queue.first ≡ drop n (flat_view con.read_queue.first))
  unfolding take_header
  take_header_lem con i o n c cs k chain z p le lt =
      let (b, run, sized, used, small, smaller) = reset_lem con.request z in
      let t : IsText (c ∷ cs) = record {
        chunks = rw chain at k.queue.chunks;
        in_mem = rw chain at k.in_mem;
      } in
      let (b', cs', run2, stored, t', left) =
        copy_header_lem h ample 0 i o n b [] c cs t p (inl (sized, used, refl))
          (omega (arith, lt)) in
      let cq = record (con.read_queue) { first = cs'; bytes_out = con.read_queue.bytes_out + n } in
      let out : flat_view cs' ≡ drop n (flat_view con.read_queue.first) =
        left ∙ ap (λ ds. drop n (flat_view ds)) (sym chain) in
      (
        record con { request = b'; read_queue = cq; state = State.request_end },
        rw (run, ap (copy_header h 0 i o b) chain ∙ run2) refl,
        record {
          queue = record {
            cache = record {
              cached = k.queue.cache.cached;
              counted = k.queue.cache.counted;
              bounded = k.queue.cache.bounded;
            };
            chunks = t'.chunks;
            balance = omega (
              arith,
              k.queue.balance,
              le,
              ap length (IsText-stream con.read_queue.first k.in_mem),
              ap length (IsText-stream cs' t'.in_mem),
              length-mem_octets (flat_view con.read_queue.first),
              length-mem_octets (flat_view cs'),
              ap length out,
              length-drop n (flat_view con.read_queue.first),
            );
          };
          in_mem = t'.in_mem;
        },
        refl,
        subst (λ (ds : List Chunk). Stores b' (take n (flat_view ds))) (sym chain) stored,
        out,
      )

  take_or_wait :
      (con : Connection) (result : ReadResult) (r : Option (ℕ × ℕ)) (n : Option ℕ)
      → IsInput con.read_queue
      → IsSized con.request
      → length (flat_view con.read_queue.first) + 1 < size_mod
      → header_length (flat_view con.read_queue.first) ≡ n
      → find_header_end 0 con.read_queue.first ≡ r
      → (con' : Connection) × (look_for_header h con result r ≡ ok con')
        × IsInput con'.read_queue
        × Handled con result (flat_view con.read_queue.first) n con'
  unfolding look_for_header
  take_or_wait con result r none k z lt en er =
      let none_found : find_header_end 0 con.read_queue.first ≡ none =
        search_none con.read_queue.first en in
      let e : r ≡ none = sym er ∙ none_found in
      let len = sum_of con.read_queue k in
      (
        no_header_end con (length (flat_view con.read_queue.first)) result,
        rw e (rw len refl),
        kept-IsInput con (length (flat_view con.read_queue.first)) result k,
        (
          (kept_state con (length (flat_view con.read_queue.first)) result).0,
          (kept_state con (length (flat_view con.read_queue.first)) result).1,
          kept_request con (length (flat_view con.read_queue.first)) result,
          ap flat_view (kept_first con (length (flat_view con.read_queue.first)) result),
        ),
      )
  take_or_wait con result r (some n) k z lt en er =
      let (c, cs, chain, i, o, found, p) = search_some con.read_queue.first n en in
      let e : r ≡ some (i, o) = sym er ∙ found in
      let le = header_length-le (flat_view con.read_queue.first) n en in
      let (con', run, k', st, req, left) =
        take_header_lem con i o n c cs k chain z p le (omega (arith, le, lt)) in
      (con', rw e run, k', (st, req, left))

  -- With memory granted, where the read queue keeps its invariant and is in memory, its bytes have
  -- a length that fits a `size_t`, and the size field of the request buffer is that of its block,
  -- what follows the reading returns, and the queue keeps its invariant. If the bytes, however they
  -- are spread over chunks, have `\r\n\r\n` in them, the request is what they are up to the end of
  -- the first such place, the queue has what follows it, and the state is the end of the request.
  -- Otherwise the request and the bytes stay, and the answer is 414 if there are more than 64 KB,
  -- the state is that of an error if the peer has closed, and stays if not.
  pub scan_queue_lem :
      (clock : Clock) (is_request_start : Bool) (con : Connection) (result : ReadResult)
      → IsInput con.read_queue
      → IsSized con.request
      → length (flat_view con.read_queue.first) + 1 < size_mod
      → (con' : Connection) × (scan_queue h clock is_request_start con result ≡ ok con')
        × IsInput con'.read_queue
        × Handled con result
            (flat_view con.read_queue.first)
            (header_length (flat_view con.read_queue.first))
            con'
  unfolding scan_queue
  scan_queue_lem clock is_request_start con result k z lt =
      let (cq, run, k1, same) = finished-IsInput con.read_queue k in
      let con0 = record con { read_queue = cq } in
      let con1 = note_start clock is_request_start con0 in
      let (eq, es, eh, er) = note_start_same clock is_request_start con0 in
      let first = ap (λ (q : Chunkqueue). flat_view q.first) eq ∙ same in
      let (con2, run2, k2, d) =
        take_or_wait con1 result (find_header_end 0 cq.first)
          (header_length (flat_view con.read_queue.first)) (subst IsInput (sym eq) k1)
          (subst IsSized (sym er) z) (omega (arith, lt, ap length first)) (ap header_length first)
          (ap (λ (q : Chunkqueue). find_header_end 0 q.first) eq) in
      let (cq', run3, k3, same3) = finished-IsInput con2.read_queue k2 in
      (
        record con2 { read_queue = cq' },
        rw run (rw (run2, run3) refl),
        k3,
        Handled-same con con1 (record con2 { read_queue = cq' }) result
            (flat_view con.read_queue.first) (header_length (flat_view con.read_queue.first)) es eh
            er
            (Handled-left con1 con2 cq' result (flat_view con.read_queue.first)
              (header_length (flat_view con.read_queue.first)) same3
              (subst
                (λ (s : Bytes).
                  Handled con1 result s (header_length (flat_view con.read_queue.first)) con2)
                first d)),
      )
