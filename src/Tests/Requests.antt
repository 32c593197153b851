-- ===== src/Tests/Requests.antt =====
-- The reading of a request (src/connections.c) and of its body (src/connections-glue.c) at a
-- concrete connection and socket.
use lighttpd.Base.{
  ℕ, zero, suc, ◌≤◌, ◌≡◌, refl, ap, inl, Bool, true, false, some, [], ◌∷◌, ◌++◌, arith, length,
  take,
}
use lighttpd.Memory.{ok, Bytes}
use lighttpd.Buffer.{init, string_length}
use lighttpd.Buffer.Holds.{string_of}
use lighttpd.Chunk.{Chunkqueue, chunkqueue_init}
use lighttpd.Chunkqueue.Tempfile.{wrote, Disk, chunkqueue_append_mem_to_tempfile}
use lighttpd.Chunkqueue.Tempfile.Loop.{Spilled, chunkqueue_append_mem_to_tempfile-Spilled}
use lighttpd.Chunkqueue.Tempfile.Open.{IsDisk}
use lighttpd.Connection.{State, got, Socket, Clock, Connection, connection_handle_read_state}
use lighttpd.Connection.Arrival.{Fits}
use lighttpd.Connection.BodyRead.{PostAnswered, connection_handle_read_post_state_lem}
use lighttpd.Connection.Extract.{flat_view, begins_end, after_one, header_length}
use lighttpd.Connection.HeaderRead.{Answered, connection_handle_read_state_lem}
use lighttpd.Connection.Post.{Handler, connection_handle_read_post_state}
use lighttpd.Tests.Paths.{ample_heap}
use lighttpd.Tests.Queues.{
  line_start, line_end, get_queue, chunkqueue_init-IsQueue, empty_IsSized, get_queue-IsQueue,
}

-- A connection that has read the first of the two chunks above, and a socket that has the bytes of
-- the second
abbrev reading : Connection
reading = record {
  state = State.read;
  is_readable = true;
  read_queue = get_queue;
  request_content_queue = chunkqueue_init [] 1048576;
  write_queue = chunkqueue_init [] 1048576;
  request = init;
  content_length = 0;
  bytes_read = 2;
  read_idle_ts = 0;
  request_count = 1;
  request_start_ts = 0;
  request_start_hp = 0;
  high_precision_timestamps = false;
  http_status = 0;
  keep_alive = true;
  mode = 0;
  stream_request = false;
  stream_pollin = false;
}

abbrev socket_of : Bytes → Socket
socket_of s = record { ready = some (length s); answer = λ n. got (take n s) }

abbrev noon : Clock
noon = record { cur_ts = 43200; realtime = 43200 }

length-take-le : (n : ℕ) (s : Bytes) → (length (take n s) ≤ n) × (length (take n s) ≤ length s)
length-take-le zero s = (omega arith, omega arith)
length-take-le (suc n) [] = (omega arith, omega arith)
length-take-le (suc n) (x ∷ s) =
    let (a, b) = length-take-le n s in (omega (arith, a), omega (arith, b))

line_end-Fits :
    (n : ℕ) → Fits (flat_view reading.read_queue.first) n ((socket_of line_end).answer n)
unfolding flat_view string_of string_length
line_end-Fits n t e =
    let same : take n line_end ≡ t = cc in
    let (a, b) = length-take-le n line_end in
    (omega (arith, a, ap length same), omega (arith, b, ap length same))

-- The header ends in the bytes that come.
header_across_chunks : header_length (line_start ++ line_end) ≡ some 5
unfolding header_length begins_end after_one
header_across_chunks = refl

connection_handle_read_state_example :
    (con' : Connection) × (done : Bool) × (mem_len : ℕ) × (connection_handle_read_state ample_heap
        noon
        (socket_of line_end)
        reading
      ≡ ok (con', done))
    × (1024 ≤ mem_len)
    × Answered reading (flat_view reading.read_queue.first) (got (take mem_len line_end)) con' done
connection_handle_read_state_example =
    connection_handle_read_state_lem ample_heap (λ n. refl) noon (socket_of line_end) reading
      (record { queue = get_queue-IsQueue; in_mem = (refl, tt) }) empty_IsSized refl
      (unfold flat_view string_of string_length in omega arith) line_end-Fits

-- A body of five bytes: the sixth that comes stays.
abbrev posting : Connection
posting = record reading { state = State.read_post; content_length = 5 }

abbrev pub careful_disk : Disk
careful_disk = record {
  mkstemp = λ calls template. some (7, template);
  write = λ calls fd s. wrote (length s);
  close = λ calls fd. true;
}

connection_handle_read_post_state_example :
    (con' : Connection) × (answer : Handler) × (mem_len : ℕ) × (connection_handle_read_post_state
        ample_heap careful_disk 0 noon
        (socket_of line_end)
        posting
      ≡ ok (con', answer))
    × (1024 ≤ mem_len)
    × PostAnswered posting
        (flat_view posting.read_queue.first)
        (got (take mem_len line_end))
        con'
        answer
connection_handle_read_post_state_example =
    connection_handle_read_post_state_lem ample_heap (λ n. refl) careful_disk 0 noon
      (socket_of line_end) posting
      (record {
        input = record { queue = get_queue-IsQueue; in_mem = (refl, tt) };
        content = chunkqueue_init-IsQueue;
        not_over = omega arith;
        small = omega arith;
      })
      refl line_end-Fits

pub careful_disk-IsDisk : IsDisk careful_disk
careful_disk-IsDisk = record {
  makes = λ calls t. (7, t, refl, refl);
  takes = λ calls fd s. (length s, refl, omega arith, λ some_there. some_there);
  closes = λ calls fd. refl;
}

-- The last chunk is in memory: a file is made.
chunkqueue_append_mem_to_tempfile_example :
    (cq' : Chunkqueue) × (chunkqueue_append_mem_to_tempfile ample_heap careful_disk 5 get_queue
        line_end
      ≡ ok (cq', true))
    × Spilled careful_disk get_queue line_end cq'
chunkqueue_append_mem_to_tempfile_example =
    chunkqueue_append_mem_to_tempfile-Spilled ample_heap (λ n. refl) careful_disk 5 get_queue
      line_end careful_disk-IsDisk (inl refl) get_queue-IsQueue (omega arith)
