-- ===== src/Tests/Queues.antt =====
-- The chunk queues of src/chunk.c at concrete queues.
use lighttpd.Base.{
  ◌+◌, ◌-◌, ◌≤◌, ◌≡◌, refl, ap, inl, inr, some, List, [], ◌∷◌, ◌++◌, arith, length, take, drop, All,
}
use lighttpd.Memory.{ok, aborted, fault, Bytes}
use lighttpd.Buffer.{init, string_length}
use lighttpd.Buffer.Holds.{IsSized, Holds, string_of}
use lighttpd.Chunk.{file_chunk, Call, Chunk, Chunkqueue, chunkqueue_init, chunk_init}
use lighttpd.Chunk.Octets.{mem_octets, file_octets, octets_as, stream, IsChunk, IsMem}
use lighttpd.Chunkqueue.{
  chunkqueue_reset, chunkqueue_append_mem, chunkqueue_length, chunkqueue_mark_written,
  chunkqueue_remove_empty_chunks,
}
use lighttpd.Chunkqueue.Append.{chunkqueue_append_mem-Gains}
use lighttpd.Chunkqueue.Cache.{HasCache, IsQueue, Gains}
use lighttpd.Chunkqueue.Empty.{chunkqueue_remove_empty_chunks-fault}
use lighttpd.Chunkqueue.Reachable.{starts, appends_mem, marks_written, chunkqueue_length-balance}
use lighttpd.Chunkqueue.Reading.{fill_memory, Offers}
use lighttpd.Chunkqueue.Reading.Filled.{chunkqueue_use_memory-Gains}
use lighttpd.Chunkqueue.Reset.{open_fds, Released, chunkqueue_reset_lem}
use lighttpd.Chunkqueue.Steal.{chunkqueue_steal-moves}
use lighttpd.Chunkqueue.Transfer.{chunkqueue_steal, chunkqueue_use_memory}
use lighttpd.Chunkqueue.Written.{chunkqueue_mark_written-drops, chunkqueue_mark_written-aborts}
use lighttpd.Tests.Paths.{ample_heap}

-- A chunk with a string that ends in a zero
abbrev chunk_of : Bytes → Chunk
chunk_of s = record chunk_init {
  mem = record { ptr = s ++ (0 ∷ []); used = length s + 1; size = length s + 1 };
}

abbrev pub line_start : Bytes
line_start = b'G' ∷ b'\r' ∷ []

abbrev pub line_end : Bytes
line_end = b'\n' ∷ b'\r' ∷ b'\n' ∷ b'X' ∷ []

abbrev pub get_queue : Chunkqueue
get_queue = record (chunkqueue_init [] 1048576) { first = chunk_of line_start ∷ []; bytes_in = 2 }

-- Five octets of a file behind bytes in memory
abbrev five_of_file : Chunk
five_of_file = record chunk_init {
  kind = file_chunk;
  file_start = 10;
  file_length = 5;
  fd = some 7;
}

abbrev response_queue : Chunkqueue
response_queue = record (chunkqueue_init [] 1048576) {
  first = chunk_of line_end ∷ five_of_file ∷ [];
  bytes_in = 9;
}

-- The last chunk is empty, and is not the first.
abbrev empty_end_queue : Chunkqueue
empty_end_queue = record (chunkqueue_init [] 1048576) {
  first = chunk_of line_start ∷ chunk_init ∷ [];
  bytes_in = 2;
}

fresh_cache : HasCache (chunkqueue_init [] 1048576)
fresh_cache = record { cached = tt; counted = refl; bounded = omega arith }

pub chunkqueue_init-IsQueue : IsQueue (chunkqueue_init [] 1048576)
unfolding stream
chunkqueue_init-IsQueue = record { cache = fresh_cache; chunks = tt; balance = refl }

pub empty_IsSized : IsSized init
empty_IsSized = record { size_is = refl; in_range = omega arith }

line_start-IsChunk : IsChunk (chunk_of line_start)
line_start-IsChunk = record {
  text = line_start;
  stored =
      inr (record {
        rest = [];
        layout = refl;
        used_is = refl;
        size_is = refl;
        in_range = omega arith;
      });
  name = [];
  named = inl (empty_IsSized, refl, refl);
  within = omega arith;
}

line_end-IsChunk : IsChunk (chunk_of line_end)
line_end-IsChunk = record {
  text = line_end;
  stored =
      inr (record {
        rest = [];
        layout = refl;
        used_is = refl;
        size_is = refl;
        in_range = omega arith;
      });
  name = [];
  named = inl (empty_IsSized, refl, refl);
  within = omega arith;
}

chunk_init-IsChunk : IsChunk chunk_init
chunk_init-IsChunk = record {
  text = [];
  stored = inl (empty_IsSized, refl, refl);
  name = [];
  named = inl (empty_IsSized, refl, refl);
  within = omega arith;
}

five_of_file-IsChunk : IsChunk five_of_file
five_of_file-IsChunk = record {
  text = [];
  stored = inl (empty_IsSized, refl, refl);
  name = [];
  named = inl (empty_IsSized, refl, refl);
  within = omega arith;
}

pub get_queue-IsQueue : IsQueue get_queue
unfolding stream octets_as mem_octets string_of string_length
get_queue-IsQueue = record {
  cache = record { cached = tt; counted = refl; bounded = omega arith };
  chunks = (line_start-IsChunk, tt);
  balance = refl;
}

response_queue-IsQueue : IsQueue response_queue
unfolding stream octets_as mem_octets file_octets string_of string_length
response_queue-IsQueue = record {
  cache = record { cached = tt; counted = refl; bounded = omega arith };
  chunks = (line_end-IsChunk, (five_of_file-IsChunk, tt));
  balance = refl;
}

empty_end_queue-IsQueue : IsQueue empty_end_queue
unfolding stream octets_as mem_octets string_of string_length
empty_end_queue-IsQueue = record {
  cache = record { cached = tt; counted = refl; bounded = omega arith };
  chunks = (line_start-IsChunk, (chunk_init-IsChunk, tt));
  balance = refl;
}

chunkqueue_append_mem_example :
    (cq' : Chunkqueue) × (chunkqueue_append_mem ample_heap response_queue line_end ≡ ok cq')
    × Gains response_queue (mem_octets line_end) cq'
chunkqueue_append_mem_example =
    chunkqueue_append_mem-Gains ample_heap (λ n. refl) response_queue line_end
      response_queue-IsQueue (omega arith)

-- The first five octets are the bytes in memory and one of the file.
chunkqueue_mark_written_example :
    (cq' : Chunkqueue) × (chunkqueue_mark_written response_queue 5 ≡ ok cq')
    × IsQueue cq'
    × (stream cq'.first ≡ drop 5 (stream response_queue.first))
    × (cq'.bytes_out ≡ 5)
chunkqueue_mark_written_example =
    chunkqueue_mark_written-drops response_queue 5 response_queue-IsQueue
      (unfold stream octets_as mem_octets file_octets string_of string_length in omega arith)

too_much_written_example : chunkqueue_mark_written response_queue 10 ≡ aborted
too_much_written_example =
    chunkqueue_mark_written-aborts response_queue 10 response_queue-IsQueue
      (unfold stream octets_as mem_octets file_octets string_of string_length in omega arith)

chunkqueue_steal_example :
    (dest' : Chunkqueue) × (src' : Chunkqueue) × (chunkqueue_steal ample_heap get_queue
        response_queue 6
      ≡ ok (dest', src'))
    × Gains get_queue (take 6 (stream response_queue.first)) dest'
    × IsQueue src'
    × (stream src'.first ≡ drop 6 (stream response_queue.first))
chunkqueue_steal_example =
    chunkqueue_steal-moves ample_heap (λ n. refl) get_queue response_queue 6 get_queue-IsQueue
      response_queue-IsQueue

chunkqueue_reset_example :
    (cq' : Chunkqueue) × (chunkqueue_reset response_queue ≡ ok cq')
    × IsQueue cq'
    × (cq'.first ≡ [])
    × (cq'.bytes_in ≡ 0)
    × (cq'.bytes_out ≡ 0)
    × (calls : List Call) × (cq'.calls ≡ calls)
    × Released response_queue.first calls
chunkqueue_reset_example = chunkqueue_reset_lem response_queue response_queue-IsQueue

-- The descriptor of the file is the one that is to be closed.
response_fds : open_fds response_queue.first ≡ 7 ∷ []
unfolding open_fds
response_fds = refl

-- Four bytes are appended to a new queue, and one of them is sent.
abbrev new_queue : Chunkqueue
new_queue = chunkqueue_init [] 1048576

filled_queue :
    (cq' : Chunkqueue) × (chunkqueue_append_mem ample_heap new_queue line_end ≡ ok cq')
    × Gains new_queue (mem_octets line_end) cq'
filled_queue =
    chunkqueue_append_mem-Gains ample_heap (λ n. refl) new_queue line_end chunkqueue_init-IsQueue
      (omega arith)

filled_length : length (stream filled_queue.0.first) ≡ 4
unfolding stream mem_octets
filled_length = ap length filled_queue.2.1

sent_queue :
    (cq' : Chunkqueue) × (chunkqueue_mark_written filled_queue.0 1 ≡ ok cq')
    × IsQueue cq'
    × (stream cq'.first ≡ drop 1 (stream filled_queue.0.first))
    × (cq'.bytes_out ≡ filled_queue.0.bytes_out + 1)
sent_queue =
    chunkqueue_mark_written-drops filled_queue.0 1 filled_queue.2.0 (omega (arith, filled_length))

chunkqueue_length_example :
    (chunkqueue_length sent_queue.0 ≡ ok (sent_queue.0.bytes_in - sent_queue.0.bytes_out))
    × (sent_queue.0.bytes_out ≤ sent_queue.0.bytes_in)
    × (sent_queue.0.unused_chunks ≤ 5)
    × (length sent_queue.0.unused ≡ sent_queue.0.unused_chunks)
chunkqueue_length_example =
    chunkqueue_length-balance ample_heap (λ n. refl) sent_queue.0
      (marks_written 1 (appends_mem line_end (starts [] 1048576) (omega arith) filled_queue.1)
        sent_queue.1)

chunkqueue_remove_empty_chunks_example : chunkqueue_remove_empty_chunks empty_end_queue ≡ fault
chunkqueue_remove_empty_chunks_example =
    chunkqueue_remove_empty_chunks-fault empty_end_queue (chunk_of line_start) [] chunk_init
      empty_end_queue-IsQueue refl
      (unfold octets_as mem_octets string_of string_length in omega arith) tt
      (unfold octets_as mem_octets string_of string_length in refl)

-- A chunk with room for two more bytes
abbrev roomy_chunk : Chunk
roomy_chunk = record chunk_init { mem = record { ptr = b'G' ∷ 0 ∷ 9 ∷ 9 ∷ []; used = 2; size = 4 } }

abbrev roomy_queue : Chunkqueue
roomy_queue = record (chunkqueue_init [] 1048576) { first = roomy_chunk ∷ []; bytes_in = 1 }

abbrev roomy-Holds : Holds roomy_chunk.mem (b'G' ∷ [])
roomy-Holds = record {
  rest = 9 ∷ 9 ∷ [];
  layout = refl;
  used_is = refl;
  size_is = refl;
  in_range = omega arith;
}

roomy_queue-Offers : Offers roomy_queue (mem_octets (b'G' ∷ [])) 1 2
unfolding stream octets_as mem_octets string_of string_length
roomy_queue-Offers = record {
  front = [];
  end = roomy_chunk;
  chain = refl;
  in_mem = refl;
  text = b'G' ∷ [];
  holds = roomy-Holds;
  room = omega arith;
  at_end = refl;
  queue = record {
    cache = record { cached = tt; counted = refl; bounded = omega arith };
    chunks = (
      record {
        text = b'G' ∷ [];
        stored = inr roomy-Holds;
        name = [];
        named = inl (empty_IsSized, refl, refl);
        within = omega arith;
      },
      tt,
    );
    balance = refl;
  };
  same = refl;
}

chunkqueue_use_memory_example :
    (cq1 : Chunkqueue) × (fill_memory roomy_queue 1 (b'E' ∷ b'T' ∷ []) ≡ ok cq1)
    × (cq2 : Chunkqueue) × (chunkqueue_use_memory cq1 2 ≡ ok cq2)
    × Gains roomy_queue (mem_octets (b'E' ∷ b'T' ∷ [])) cq2
    × (All IsMem roomy_queue.first → All IsMem cq2.first)
chunkqueue_use_memory_example =
    chunkqueue_use_memory-Gains roomy_queue (mem_octets (b'G' ∷ [])) 1 2 (b'E' ∷ b'T' ∷ [])
      roomy_queue-Offers (omega arith)
