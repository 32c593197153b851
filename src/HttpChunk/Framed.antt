-- ===== src/HttpChunk/Framed.antt =====
-- The framing of the chunked transfer encoding (src/http_chunk.c).
use mathlib.Core.Path.{subst}
use native.Mathlib.Nat.{pow-suc}
use lighttpd.Base.{
  ℕ, zero, suc, ◌+◌, ◌*◌, ◌^◌, ◌≤◌, ◌<◌, ◌≡◌, refl, sym, ap, ◌∙◌, inl, inr, Bool, true, false, List,
  [], ◌∷◌, ◌++◌, append_assoc, arith, ◌==◌, Bool-cases, length,
}
use lighttpd.Memory.{Outcome, ok, Bytes, size_mod, Allocator}
use lighttpd.Buffer.{Buffer}
use lighttpd.Buffer.Holds.{IsSized, Holds, Stores, Stores-IsSized, length-eq-zero}
use lighttpd.Buffer.Resize.{string_set_length_lem}
use lighttpd.Buffer.Write.{append_string_len_lem}
use lighttpd.Chunk.{Chunkqueue}
use lighttpd.Chunk.Octets.{Octet, mem_octets, file_octets, stream}
use lighttpd.Chunkqueue.{chunkqueue_append_file_fd, chunkqueue_append_mem}
use lighttpd.Chunkqueue.Append.{
  chunkqueue_append_mem-Gains, chunkqueue_append_file_fd-Gains, chunkqueue_append_buffer-Gains,
}
use lighttpd.Chunkqueue.Cache.{IsQueue, Gains}
use lighttpd.Chunkqueue.Tempfile.{Disk}
use lighttpd.HttpChunk.{
  Writer, of_mem, is_over, length_line, http_chunk_append_len, open_frame, close_frame,
  http_chunk_append_file_fd_range, append_source, append_in_memory, http_chunk_append_data,
  http_chunk_append_mem,
}
use lighttpd.Number.Hex.{IsHex, append_uint_hex_lem}
use lighttpd.Splay.Order.{under}

-- `\r\n`
abbrev pub line_break : Bytes
line_break = b'\r' ∷ b'\n' ∷ []

-- A length and its line end, the data, and a line end; or the data alone
abbrev pub framed : Bool → Bytes → List Octet → List Octet
framed true size os = mem_octets (size ++ line_break) ++ (os ++ mem_octets line_break)
framed false size os = os

-- The queue keeps its invariant, and the size field of the buffer for lengths is that of its block.
pub record IsWriter (w : Writer) : Type 0 where
  pub queue : IsQueue w.write_queue
  pub line : IsSized w.tmp_chunk_len

pub Gains-trans :
    (a b c : Chunkqueue) (s t : List Octet) → Gains a s b → Gains b t c → Gains a (s ++ t) c
Gains-trans a b c s t g k = (k.0, k.1 ∙ ap (λ u. u ++ t) (g.1) ∙ append_assoc (stream a.first) s t)

big_power : (k : ℕ) → 2 * suc (suc k) + 10 ≤ 256 ^ suc k
big_power zero = omega (arith, pow-suc 256 0)
big_power (suc k) = omega (arith, big_power k, pow-suc 256 (suc k))

-- The digits of a length leave room for more.
few_digits : (k value : ℕ) → (0 < k → 256 ^ k ≤ value) → value < size_mod → 2 * suc k + 9 < size_mod
few_digits zero value big lt = omega arith
few_digits (suc k) value big lt = omega (arith, big_power k, big (omega arith), lt)

fewer_digits : (k value : ℕ) → (0 < k → 256 ^ k ≤ value) → 2 * suc k ≤ value + 2
fewer_digits zero value big = omega arith
fewer_digits (suc k) value big = omega (arith, big_power k, big (omega arith))

module _ (h : Allocator) (ample : (n : ℕ) → h.grants n ≡ true) where
  pub length_line_lem :
      (b : Buffer) (len : ℕ)
      → IsSized b
      → len < size_mod
      → (size : Bytes) × IsHex size len
        × (length size ≤ len + 2)
        × (b' : Buffer) × (length_line h b len ≡ ok b')
        × Holds b' (size ++ line_break)
  unfolding length_line
  length_line_lem b len z lt =
      let (us, more, e, none_left, b1, run, k) =
        string_set_length_lem h ample b 0 z (omega arith) in
      let bare : us ≡ [] = length-eq-zero us none_left in
      let k1 : Holds b1 [] = subst (Holds b1) bare k in
      let (size, digits, value, many, big, b2, run2, k2) =
        append_uint_hex_lem h ample [] len (inr k1) lt (omega arith) in
      let (b3, run3, k3) =
        append_string_len_lem h ample size line_break (inr k2)
          (omega (arith, many, few_digits digits len big lt)) in
      (size, value, omega (arith, many, fewer_digits digits len big), b3, rw (run, run2) run3, k3)

  -- The length line goes to the queue.
  opened :
      (w : Writer) (len : ℕ)
      → IsWriter w
      → w.is_chunked ≡ true
      → len < size_mod
      → (size : Bytes) × IsHex size len
        × (w' : Writer) × (open_frame h w len ≡ ok w')
        × Gains w.write_queue (mem_octets (size ++ line_break)) w'.write_queue
        × IsWriter w'
        × (w'.is_chunked ≡ true)
  unfolding open_frame http_chunk_append_len
  opened w len k chunked lt =
      let (size, value, few, b, run, line) = length_line_lem w.tmp_chunk_len len k.line lt in
      let (cq, b', run2, gain, emptied) =
        chunkqueue_append_buffer-Gains w.write_queue b (size ++ line_break) k.queue (inr line) in
      (
        size,
        value,
        record w { write_queue = cq; tmp_chunk_len = b' },
        rw chunked (rw (run, run2) refl),
        gain,
        record { queue = gain.0; line = Stores-IsSized emptied },
        chunked,
      )

  -- The steps of a write in a frame, for some way to append the octets `os`
  record Framing (g : Chunkqueue → Outcome Chunkqueue) (w : Writer) (len : ℕ) (os : List Octet)
      : Type 0 where
    line_written : Writer
    opens : open_frame h w len ≡ ok line_written
    filled : Chunkqueue
    fills : g line_written.write_queue ≡ ok filled
    done : Writer
    closes : close_frame h (record line_written { write_queue = filled }) ≡ ok done
    size : Bytes
    value : IsHex size len
    gain : Gains w.write_queue (framed w.is_chunked size os) done.write_queue
    stays : IsWriter done

  framing :
      (g : Chunkqueue → Outcome Chunkqueue) (w : Writer) (len : ℕ) (os : List Octet)
      → ((cq : Chunkqueue) → IsQueue cq → (cq' : Chunkqueue) × (g cq ≡ ok cq') × Gains cq os cq')
      → IsWriter w
      → len < size_mod
      → Framing g w len os
  unfolding close_frame
  framing g w len os fill k lt = elim (Bool-cases w.is_chunked) [
    | inl chunked ↦
        let (size, value, w1, run, g1, k1, chunked1) = opened w len k chunked lt in
        let (cq2, run2, g2) = fill w1.write_queue k1.queue in
        let (cq3, run3, g3) =
          chunkqueue_append_mem-Gains h ample cq2 line_break (g2.0) (omega arith) in
        record {
          line_written = w1;
          opens = run;
          filled = cq2;
          fills = run2;
          done = record w1 { write_queue = cq3 };
          closes = rw chunked1 (rw run3 refl);
          size = size;
          value = value;
          gain =
              subst (λ b. Gains w.write_queue (framed b size os) cq3) (sym chunked)
                (Gains-trans w.write_queue w1.write_queue cq3 (mem_octets (size ++ line_break))
                  (os ++ mem_octets line_break) g1
                  (Gains-trans w1.write_queue cq2 cq3 os (mem_octets line_break) g2 g3));
          stays = record { queue = g3.0; line = k1.line };
        }
    | inr plain ↦
        let (cq2, run2, g2) = fill w.write_queue k.queue in
        let (b, value, few, line, run, held) = length_line_lem w.tmp_chunk_len len k.line lt in
        record {
          line_written = w;
          opens = unfold open_frame in rw plain refl;
          filled = cq2;
          fills = run2;
          done = record w { write_queue = cq2 };
          closes = rw plain refl;
          size = b;
          value = value;
          gain = subst (λ b'. Gains w.write_queue (framed b' b os) cq2) (sym plain) g2;
          stays = record { queue = g2.0; line = k.line };
        }
  ]

  -- With memory granted, where the write queue keeps its invariant and the size field of the buffer
  -- for lengths is that of its block, and a nonempty string of a length that fits a `size_t` does
  -- not go to a temporary file, `http_chunk_append_mem` returns 0. The queue keeps its invariant and
  -- has got the string, where the response is chunked between its length in hexadecimal digits with
  -- `\r\n`, and `\r\n`.
  pub http_chunk_append_mem-framed :
      (disk : Disk) (fuel : ℕ) (w : Writer) (s : Bytes)
      → IsWriter w
      → 0 < length s
      → length s + 1 < size_mod
      → is_over w (length s) ≡ false
      → (w' : Writer) × (http_chunk_append_mem h disk fuel w s ≡ ok (w', of_mem s, true))
        × (size : Bytes) × IsHex size (length s)
        × Gains w.write_queue (framed w.is_chunked size (mem_octets s)) w'.write_queue
        × IsWriter w'
  unfolding http_chunk_append_mem http_chunk_append_data append_in_memory append_source
  http_chunk_append_mem-framed disk fuel w s k some_there lt under =
      let f =
        framing (λ cq. chunkqueue_append_mem h cq s) w (length s) (mem_octets s)
          (λ cq q. chunkqueue_append_mem-Gains h ample cq s q lt) k (omega (arith, lt)) in
      let nonzero : (length s == 0) ≡ false = ground (arith, some_there) in
      (
        f.done,
        rw (nonzero, under) (rw f.opens (rw f.fills (rw f.closes refl))),
        f.size,
        f.value,
        f.gain,
        f.stays,
      )

  -- With memory granted, where the write queue keeps its invariant, the size field of the buffer for
  -- lengths is that of its block, the name is stored in its buffer and the length fits a `size_t`,
  -- the octets of the file come behind those of the queue, which keeps its invariant. Where the
  -- response is chunked, their number in hexadecimal digits and `\r\n` stand before them, and `\r\n`
  -- behind them.
  pub http_chunk_append_file_fd_range-framed :
      (w : Writer) (fn : Buffer) (name : Bytes) (fd offset len : ℕ)
      → IsWriter w
      → Stores fn name
      → len < size_mod
      → (w' : Writer) × (http_chunk_append_file_fd_range h w fn fd offset len ≡ ok w')
        × (size : Bytes) × IsHex size len
        × Gains w.write_queue
            (framed w.is_chunked size (file_octets name offset len))
            w'.write_queue
        × IsWriter w'
  unfolding http_chunk_append_file_fd_range
  http_chunk_append_file_fd_range-framed w fn name fd offset len k named lt =
      let f =
        framing (λ cq. chunkqueue_append_file_fd h cq fn fd offset len) w len
          (file_octets name offset len)
          (λ cq q. chunkqueue_append_file_fd-Gains h ample cq fn name fd offset len q named) k lt in
      (f.done, rw f.opens (rw f.fills f.closes), f.size, f.value, f.gain, f.stays)
