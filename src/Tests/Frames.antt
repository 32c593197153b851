-- ===== src/Tests/Frames.antt =====
-- Chunks of a response (src/http_chunk.c) at a concrete queue.
use lighttpd.Base.{◌≡◌, refl, inl, true, false, [], arith}
use lighttpd.Memory.{ok, Bytes}
use lighttpd.Buffer.{init}
use lighttpd.Chunk.Octets.{mem_octets, file_octets}
use lighttpd.Chunkqueue.Cache.{Gains}
use lighttpd.Chunkqueue.Tempfile.Loop.{Spilled}
use lighttpd.Chunkqueue.Transfer.{last_chunk}
use lighttpd.HttpChunk.{
  Writer, of_mem, last_is_temp, is_over, http_chunk_append_file_fd_range,
  http_chunk_append_to_tempfile, http_chunk_append_mem,
}
use lighttpd.HttpChunk.Framed.{
  framed, IsWriter, http_chunk_append_mem-framed, http_chunk_append_file_fd_range-framed,
}
use lighttpd.HttpChunk.Spilled.{framed_bytes, http_chunk_append_to_tempfile-Spilled}
use lighttpd.Number.Hex.{IsHex}
use lighttpd.Tests.Paths.{ample_heap}
use lighttpd.Tests.Queues.{line_end, get_queue, empty_IsSized, get_queue-IsQueue}
use lighttpd.Tests.Requests.{careful_disk, careful_disk-IsDisk}

abbrev responding : Writer
responding = record {
  write_queue = get_queue;
  tmp_chunk_len = init;
  is_chunked = true;
  is_bufmin = false;
}

responding-IsWriter : IsWriter responding
responding-IsWriter = record { queue = get_queue-IsQueue; line = empty_IsSized }

http_chunk_append_mem_example :
    (w' : Writer) × (http_chunk_append_mem ample_heap careful_disk 0 responding line_end
      ≡ ok (w', of_mem line_end, true))
    × (size : Bytes) × IsHex size 4
    × Gains get_queue (framed true size (mem_octets line_end)) w'.write_queue
    × IsWriter w'
http_chunk_append_mem_example =
    http_chunk_append_mem-framed ample_heap (λ n. refl) careful_disk 0 responding line_end
      responding-IsWriter (omega arith) (omega arith)
      (unfold is_over last_is_temp last_chunk in refl)

http_chunk_append_file_fd_range_example :
    (w' : Writer) × (http_chunk_append_file_fd_range ample_heap responding init 7 10 5 ≡ ok w')
    × (size : Bytes) × IsHex size 5
    × Gains get_queue (framed true size (file_octets [] 10 5)) w'.write_queue
    × IsWriter w'
http_chunk_append_file_fd_range_example =
    http_chunk_append_file_fd_range-framed ample_heap (λ n. refl) responding init [] 7 10 5
      responding-IsWriter (inl (empty_IsSized, refl, refl)) (omega arith)

http_chunk_append_to_tempfile_example :
    (w' : Writer) × (http_chunk_append_to_tempfile ample_heap careful_disk 9 responding line_end
      ≡ ok (w', true))
    × (size : Bytes) × IsHex size 4
    × Spilled careful_disk get_queue (framed_bytes true size line_end) w'.write_queue
http_chunk_append_to_tempfile_example =
    http_chunk_append_to_tempfile-Spilled ample_heap (λ n. refl) careful_disk 9 responding line_end
      careful_disk-IsDisk (inl refl) responding-IsWriter (omega arith) (omega arith)
