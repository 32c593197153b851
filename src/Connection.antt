-- ===== src/Connection.antt =====
-- How a connection reads a request: `connection_handle_read` (src/connections-glue.c),
-- `connection_handle_read_state` (src/connections.c) and `connection_handle_read_post_state`
-- (src/connections-glue.c). Of the connection and the server the fields are kept that these
-- functions touch. What the system answers is an argument. The TLS path, Windows and the log are
-- not modelled.
pub mod HeaderEnd
pub mod Extract
pub mod Received
pub mod Scan
pub mod Header
pub mod Arrival
pub mod Reads
pub mod HeaderRead
pub mod Post
pub mod Body
pub mod BodyRead
use lighttpd.Base.{
  ℕ, ◌+◌, ◌-◌, Bool, true, false, ◌&&◌, Option, none, some, List, [], ◌∷◌, ltb, leb, ◌==◌,
  if◌then◌else◌, length, take, drop,
}
use lighttpd.Memory.{Outcome, ok, ◌>>=◌, ◌>>◌, Bytes, Allocator}
use lighttpd.Buffer.{Buffer, string_length, reset, append_string_len}
use lighttpd.Chunk.{Chunk, Chunkqueue}
use lighttpd.Chunkqueue.{chunkqueue_is_empty, chunkqueue_length, chunkqueue_remove_finished_chunks}
use lighttpd.Chunkqueue.Reading.{fill_memory}
use lighttpd.Chunkqueue.Transfer.{last_chunk, chunkqueue_get_memory, chunkqueue_use_memory}
use lighttpd.Connection.HeaderEnd.{find_header_end}

-- `connection_state_t`
pub data State : Type 0 where
  connect request_start read request_end read_post handle_request response_start write : State
  response_end error close : State

-- What the error number of `read` is compared with
pub data Errno : Type 0 where
  eagain eintr econnreset other : Errno

-- `read` gives bytes or fails.
pub data Answer : Type 0 where
  got : Bytes → Answer
  failed : Errno → Answer

-- `FIONREAD`, where `ioctl` succeeds, and what `read` answers for the size that it is given
pub record Socket : Type 0 where
  pub ready : Option ℕ
  pub answer : ℕ → Answer

-- `srv->cur_ts` and the clock of `log_clock_gettime_realtime`
pub record Clock : Type 0 where
  pub cur_ts : ℕ
  pub realtime : ℕ

-- `stream_request` and `stream_pollin` are the bits of `conf.stream_request_body`.
pub record Connection : Type 0 where
  pub state : State
  pub is_readable : Bool
  pub read_queue : Chunkqueue
  pub request_content_queue : Chunkqueue
  pub write_queue : Chunkqueue
  pub request : Buffer
  pub content_length : ℕ
  pub bytes_read : ℕ
  pub read_idle_ts : ℕ
  pub request_count : ℕ
  pub request_start_ts : ℕ
  pub request_start_hp : ℕ
  pub high_precision_timestamps : Bool
  pub http_status : ℕ
  pub keep_alive : Bool
  pub mode : ℕ
  pub stream_request : Bool
  pub stream_pollin : Bool

-- 0, -1 and -2
pub data ReadResult : Type 0 where
  read_ok read_error read_closed : ReadResult

abbrev pub max_read_limit : ℕ
max_read_limit = 262144

unfoldable pub bytes_to_read : Option ℕ → ℕ
bytes_to_read none = 4096
bytes_to_read (some n) =
    if leb n 4096 then 4096 else if ltb max_read_limit n then max_read_limit else n

-- `switch (errno)`, with `is_readable` unset before
unfoldable pub read_failed : Connection → Errno → Connection × ReadResult
read_failed con eagain = (record con { is_readable = false }, read_ok)
read_failed con eintr = (record con { is_readable = true }, read_ok)
read_failed con _ = (record con { is_readable = false; state = State.error }, read_error)

-- What `len` says
unfoldable pub read_done : Connection → ℕ → ℕ → Connection × ReadResult
read_done con mem_len len =
    if len == 0
    then (record con { is_readable = false }, read_closed)
    else if len == mem_len
    then (record con { bytes_read = con.bytes_read + len }, read_ok)
    else (record con { is_readable = false; bytes_read = con.bytes_read + len }, read_ok)

module _ (h : Allocator) where
  unfoldable pub take_answer : Connection → ℕ → ℕ → Answer → Outcome (Connection × ReadResult)
  take_answer con target mem_len (got s) = do
    cq ← fill_memory con.read_queue target s
    cq' ← chunkqueue_use_memory cq (length s)
    ok (read_done (record con { read_queue = cq' }) mem_len (length s))
  take_answer con target mem_len (failed e) = do
    cq ← chunkqueue_use_memory con.read_queue 0
    ok (read_failed (record con { read_queue = cq }) e)

  unfoldable pub connection_handle_read : Socket → Connection → Outcome (Connection × ReadResult)
  connection_handle_read socket con = do
    (cq, target, mem_len) ← chunkqueue_get_memory h con.read_queue 0 (bytes_to_read socket.ready)
    take_answer (record con { read_queue = cq }) target mem_len (socket.answer mem_len)

  -- `if (con->is_readable)`, in both states
  unfoldable pub read_if_readable : Clock → Socket → Connection → Outcome (Connection × ReadResult)
  read_if_readable clock socket con =
      if con.is_readable
      then connection_handle_read socket (record con { read_idle_ts = clock.cur_ts })
      else ok (con, read_ok)

-- The timestamp of a next request on a connection that is kept alive
unfoldable pub note_start : Clock → Bool → Connection → Connection
note_start clock is_request_start con =
    if ltb 1 con.request_count && is_request_start
    then record con {
      request_start_ts = clock.cur_ts;
      request_start_hp =
          if con.high_precision_timestamps then clock.realtime else con.request_start_hp;
    }
    else con

-- No end of the header
unfoldable pub no_header_end : Connection → ℕ → ReadResult → Connection
no_header_end con n result =
    if ltb 65536 n
    then record con { http_status = 414; keep_alive = false; state = State.handle_request }
    else elim result [ read_closed ↦ record con { state = State.error } | _ ↦ con ]

module _ (h : Allocator) where
  -- The loop that copies the header: the request, the chain, and how many bytes were taken
  unfoldable pub copy_header : ℕ → ℕ → ℕ → Buffer → List Chunk → Outcome (Buffer × List Chunk × ℕ)
  copy_header idx last_chunk last_offset b [] = ok (b, [], 0)
  copy_header idx last_chunk last_offset b (c ∷ cs) = do
    let len = if idx == last_chunk then last_offset else string_length c.mem - c.offset
    b' ← append_string_len h b (take len (drop c.offset c.mem.ptr))
    let c' = record c { offset = c.offset + len }
    if idx == last_chunk then ok (b', c' ∷ cs, len) else (do
      (b'', cs', n) ← copy_header (idx + 1) last_chunk last_offset b' cs
      ok (b'', c' ∷ cs', len + n))

  unfoldable pub take_header : Connection → ℕ × ℕ → Outcome Connection
  take_header con (last_chunk, last_offset) = do
    b ← reset con.request
    (b', cs, n) ← copy_header 0 last_chunk last_offset b con.read_queue.first
    let cq = record (con.read_queue) { first = cs; bytes_out = con.read_queue.bytes_out + n }
    ok (record con { request = b'; read_queue = cq; state = State.request_end })

  unfoldable pub look_for_header : Connection → ReadResult → Option (ℕ × ℕ) → Outcome Connection
  look_for_header con result (some place) = take_header con place
  look_for_header con result none = do
    n ← chunkqueue_length con.read_queue
    ok (no_header_end con n result)

  -- After the reading
  unfoldable pub scan_queue : Clock → Bool → Connection → ReadResult → Outcome Connection
  scan_queue clock is_request_start con result = do
    cq ← chunkqueue_remove_finished_chunks con.read_queue
    let con1 = note_start clock is_request_start (record con { read_queue = cq })
    con2 ← look_for_header con1 result (find_header_end 0 cq.first)
    cq' ← chunkqueue_remove_finished_chunks con2.read_queue
    ok (record con2 { read_queue = cq' })

  -- `if (-1 == ...) return -1`, and the rest of the function; whether it returns 0
  unfoldable pub after_read : Clock → Bool → Connection × ReadResult → Outcome (Connection × Bool)
  after_read clock is_request_start (con, read_error) = ok (con, false)
  after_read clock is_request_start (con, result) = do
    con' ← scan_queue clock is_request_start con result
    ok (con', true)

  unfoldable pub connection_handle_read_state :
      Clock → Socket → Connection → Outcome (Connection × Bool)
  connection_handle_read_state clock socket con = do
    r ← read_if_readable h clock socket con
    after_read clock (chunkqueue_is_empty con.read_queue) r
