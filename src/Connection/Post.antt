-- ===== src/Connection/Post.antt =====
-- `connection_handle_read_post_state` (src/connections-glue.c): the body of a request.
use lighttpd.Base.{ℕ, ◌-◌, Bool, true, false, not, leb, ◌==◌, if◌then◌else◌}
use lighttpd.Memory.{Outcome, ok, ◌>>=◌, Allocator}
use lighttpd.Chunkqueue.{chunkqueue_reset, chunkqueue_remove_finished_chunks}
use lighttpd.Chunkqueue.Spill.{chunkqueue_steal_with_tempfiles}
use lighttpd.Chunkqueue.Tempfile.{Disk}
use lighttpd.Chunkqueue.Transfer.{chunkqueue_steal}
use lighttpd.Connection.{
  State, read_post, Socket, Clock, Connection, ReadResult, read_error, read_closed,
  read_if_readable,
}

-- `handler_t`, the values that the function returns
pub data Handler : Type 0 where
  go_on finished wait_for_event error : Handler

module _ (h : Allocator) (disk : Disk) where
  -- The body to `request_content_queue`: small ones in memory. Whether that was possible
  unfoldable pub take_body : ℕ → Connection → Outcome (Connection × Bool)
  take_body fuel con = do
    let dst_cq = con.request_content_queue
    let len = con.content_length - dst_cq.bytes_in
    if leb con.content_length 65536
        then (chunkqueue_steal h dst_cq con.read_queue len >>= λ (dst_cq', cq).
            ok (record con { request_content_queue = dst_cq'; read_queue = cq }, true))
        else (chunkqueue_steal_with_tempfiles h disk fuel dst_cq con.read_queue len
            >>= λ (dst_cq', cq, done).
                ok (record con { request_content_queue = dst_cq'; read_queue = cq }, done))

-- A temporary file could not be written.
unfoldable pub body_failed : Connection → Outcome (Connection × Handler)
body_failed con = do
  cq ← chunkqueue_reset con.write_queue
  ok (record con { http_status = 500; keep_alive = false; mode = 0; write_queue = cq }, finished)

abbrev pub content_ready : State → State
content_ready read_post = State.handle_request
content_ready st = st

-- `is_closed`, and waiting for more
abbrev pub content_missing : Connection → ReadResult → Connection × Handler
content_missing con read_closed = (con, Handler.error)
content_missing con result =
    (record con { stream_pollin = true }, (if con.stream_request then go_on else wait_for_event))

unfoldable pub body_state : Connection → ReadResult → Connection × Handler
body_state con result =
    if con.request_content_queue.bytes_in == con.content_length
    then (record con { stream_pollin = false; state = content_ready con.state }, go_on)
    else content_missing con result

module _ (h : Allocator) (disk : Disk) where
  -- After the reading
  unfoldable pub receive_body : ℕ → Connection → ReadResult → Outcome (Connection × Handler)
  receive_body fuel con result = do
    cq ← chunkqueue_remove_finished_chunks con.read_queue
    (con1, done) ← take_body h disk fuel (record con { read_queue = cq })
    if not done then body_failed con1 else (do
      cq' ← chunkqueue_remove_finished_chunks con1.read_queue
      ok (body_state (record con1 { read_queue = cq' }) result))

  unfoldable pub after_post : ℕ → Connection × ReadResult → Outcome (Connection × Handler)
  after_post fuel (con, read_error) = ok (con, Handler.error)
  after_post fuel (con, result) = receive_body fuel con result

  unfoldable pub connection_handle_read_post_state :
      ℕ → Clock → Socket → Connection → Outcome (Connection × Handler)
  connection_handle_read_post_state fuel clock socket con =
      read_if_readable h clock socket con >>= after_post fuel
