-- ===== src/Chunkqueue/Tempfile/Loop.antt =====
-- The loop of `chunkqueue_append_mem_to_tempfile` (src/chunk.c), and the bytes that it writes.
use mathlib.Core.Path.{subst}
use lighttpd.Base.{
  ℕ, zero, suc, ◌+◌, ◌-◌, ◌<◌, ◌≡◌, refl, sym, ap, ◌∙◌, inl, inr, true, List, [], ◌∷◌, ◌++◌,
  append-nil, append_assoc, arith, ◌==◌, Bool-cases, length, take, drop, length-append, take-length,
  take-append-drop, All, all,
}
use lighttpd.Memory.{ok, Bytes, Allocator}
use lighttpd.Buffer.Holds.{string_of}
use lighttpd.Chunk.{file_chunk, Call, write_fd, Chunk, Chunkqueue, whole_length}
use lighttpd.Chunk.Octets.{
  Octet, in_file, file_octets, octets_as, octets, stream, IsChunk, length-file_octets, length-drop,
  stream-append, stream_one,
}
use lighttpd.Chunkqueue.Cache.{IsQueue, All-append}
use lighttpd.Chunkqueue.LastChunk.{All-split}
use lighttpd.Chunkqueue.Tempfile.{
  wrote, Disk, called, change_last, count_written, chunkqueue_append_mem_to_tempfile,
}
use lighttpd.Chunkqueue.Tempfile.Choose.{change_last-append, choose_last-Opens}
use lighttpd.Chunkqueue.Tempfile.Open.{IsDisk, HasPlace, after_write, written_bytes, Opened}

abbrev pub IsInFile : Octet → Type 0
IsInFile o = (name : Bytes) × (place : ℕ) × (o ≡ in_file name place)

file_octets-IsInFile : (name : Bytes) (p n : ℕ) → All IsInFile (file_octets name p n)
unfolding file_octets
file_octets-IsInFile name p zero = tt
file_octets-IsInFile name p (suc n) = ((name, p, refl), file_octets-IsInFile name (p + 1) n)

file_octets-add :
    (name : Bytes) (p m n : ℕ)
    → file_octets name p (m + n) ≡ file_octets name p m ++ file_octets name (p + m) n
unfolding file_octets
file_octets-add name p zero n =
    let e : zero + n ≡ n = omega arith in let e' : p + zero ≡ p = omega arith in rw (e, e') refl
file_octets-add name p (suc m) n =
    let e : suc m + n ≡ suc (m + n) = omega arith in
    let e' : p + suc m ≡ p + 1 + m = omega arith in
    rw (e, e') (ap (◌∷◌ (in_file name p)) (file_octets-add name (p + 1) m n))

-- A file that grew by `n` bytes
longer_file :
    (c : Chunk) (n : ℕ)
    → IsChunk c
    → c.kind ≡ file_chunk
    → c.offset ≡ 0
    → let c' : Chunk = record c { file_length = c.file_length + n } in
      IsChunk c'
      × (octets c'
          ≡ octets c ++ file_octets (string_of c.file_name) (c.file_start + c.file_length) n)
unfolding octets_as whole_length
longer_file c n k e z =
    let sum : c.file_length + n - c.offset ≡ c.file_length - c.offset + n = omega (arith, z) in
    let place : c.file_start + c.offset + (c.file_length - c.offset)
        ≡ c.file_start + c.file_length =
      omega (arith, z) in
    (
      record {
        text = k.text;
        stored = k.stored;
        name = k.name;
        named = k.named;
        within = omega (arith, z);
      },
      rw e (
          rw sum (
            file_octets-add (string_of c.file_name) (c.file_start + c.offset)
              (c.file_length - c.offset) n)
          ∙ ap
              (λ p.
                file_octets (string_of c.file_name) (c.file_start + c.offset)
                  (c.file_length - c.offset)
                ++ file_octets (string_of c.file_name) p n)
              place),
    )

-- What a queue gained, and what was written: the bytes `s`
pub record Spilled (disk : Disk) (cq : Chunkqueue) (s : Bytes) (cq' : Chunkqueue) : Type 0 where
  pub queue : IsQueue cq'
  pub new : List Octet
  pub grew : stream cq'.first ≡ stream cq.first ++ new
  pub as_many : length new ≡ length s
  pub in_files : All IsInFile new
  pub calls : List Call
  pub calls_are : cq'.calls ≡ cq.calls ++ calls
  pub bytes : written_bytes disk cq.calls calls ≡ s
  pub same_dirs : cq'.tempdirs ≡ cq.tempdirs
  pub same_idx : cq'.tempdir_idx ≡ cq.tempdir_idx

count_written_lem :
    (disk : Disk) (cq cq1 : Chunkqueue) (e : Call) (n : ℕ)
    → Opened disk cq cq1
    → IsQueue (count_written (called cq1 e) n)
      × (new : List Octet) × (stream (count_written (called cq1 e) n).first
          ≡ stream cq.first ++ new)
      × (length new ≡ n)
      × All IsInFile new
unfolding count_written
count_written_lem disk cq cq1 e n o =
    let f : Chunk → Chunk = λ c. record c { file_length = c.file_length + n } in
    let (dsk, k) = All-split o.front o.end (rw o.chain at (o.queue).chunks) in
    let (k', more) = longer_file o.end n k o.in_file o.unsent in
    let new = file_octets (string_of o.end.file_name) (o.end.file_start + o.end.file_length) n in
    let chain' : change_last f cq1.first ≡ o.front ++ (f o.end ∷ []) =
      ap (change_last f) o.chain ∙ change_last-append f o.front o.end in
    let grown : stream (change_last f cq1.first) ≡ stream cq1.first ++ new =
      ap stream chain'
      ∙ stream-append o.front (f o.end ∷ [])
      ∙ ap (λ u. stream o.front ++ u) (stream_one (f o.end) ∙ more)
      ∙ sym (append_assoc (stream o.front) (octets o.end) new)
      ∙ ap (λ u. stream o.front ++ u ++ new) (sym (stream_one o.end))
      ∙ ap (λ u. u ++ new) (sym (stream-append o.front (o.end ∷ [])) ∙ ap stream (sym o.chain)) in
    let q = o.queue in
    let many : length new ≡ n = length-file_octets _ _ n in
    (
      record {
        cache = record {
          cached = q.cache.cached;
          counted = q.cache.counted;
          bounded = q.cache.bounded;
        };
        chunks = rw chain' (All-append IsChunk o.front (f o.end ∷ []) dsk (k', tt));
        balance =
            omega (arith, q.balance, ap length grown, length-append (stream cq1.first) new, many);
      },
      new,
      grown ∙ ap (λ u. u ++ new) o.same,
      many,
      file_octets-IsInFile _ _ n,
    )

written_bytes-write :
    (disk : Disk) (past : List Call) (fd : ℕ) (s : Bytes) (n : ℕ) (cs : List Call)
    → disk.write past fd s ≡ wrote n
    → written_bytes disk past (write_fd fd s ∷ cs)
      ≡ take n s ++ written_bytes disk (past ++ (write_fd fd s ∷ [])) cs
unfolding written_bytes
written_bytes-write disk past fd s n cs e =
    ap (λ w. after_write w s (written_bytes disk (past ++ (write_fd fd s ∷ [])) cs)) e

module _ (h : Allocator) (ample : (n : ℕ) → h.grants n ≡ true) (disk : Disk) where
  -- With memory granted, on a disk that makes and closes files and takes at least a byte of what it
  -- is given, where a queue keeps its invariant and has a place for temporary files, the loop
  -- returns 0 if it has one round more than there are bytes. The queue keeps its invariant and has
  -- got as many octets at its end, all of them in files, and the calls of `write` have written the
  -- bytes in their order, each of them once.
  pub chunkqueue_append_mem_to_tempfile-Spilled :
      (fuel : ℕ) (cq : Chunkqueue) (s : Bytes)
      → IsDisk disk
      → HasPlace cq.tempdirs cq.tempdir_idx
      → IsQueue cq
      → length s < fuel
      → (cq' : Chunkqueue) × (chunkqueue_append_mem_to_tempfile h disk fuel cq s ≡ ok (cq', true))
        × Spilled disk cq s cq'
  unfolding chunkqueue_append_mem_to_tempfile
  chunkqueue_append_mem_to_tempfile-Spilled zero cq s d place q lt = absurd (omega arith)
  chunkqueue_append_mem_to_tempfile-Spilled (suc fuel) cq s d place q lt =
      let (cq1, fd, run, o) = choose_last-Opens h ample disk cq d place q in
      let (n, answer, le, some_taken) = d.takes cq1.calls fd s in
      let cq2 = count_written (called cq1 (write_fd fd s)) n in
      let (q2, new, grew, many, there) = count_written_lem disk cq cq1 (write_fd fd s) n o in
      let past : cq2.calls ≡ cq1.calls ++ (write_fd fd s ∷ []) = unfold count_written in refl in
      elim (Bool-cases (n == length s)) [
        | inl all ↦
            let whole : n ≡ length s = ground (arith, all) in
            (
              cq2,
              rw run (rw (answer, all) refl),
              record {
                queue = q2;
                new = new;
                grew = grew;
                as_many = many ∙ whole;
                in_files = there;
                calls = o.calls ++ (write_fd fd s ∷ []);
                calls_are =
                    past
                    ∙ ap (λ u. u ++ (write_fd fd s ∷ [])) o.calls_are
                    ∙ append_assoc cq.calls o.calls (write_fd fd s ∷ []);
                bytes =
                    o.no_bytes (write_fd fd s ∷ [])
                    ∙ written_bytes-write disk cq1.calls fd s n [] answer
                    ∙ unfold written_bytes in
                      append-nil (take n s)
                      ∙ ap (λ m. take m s) whole
                      ∙ ap (take (length s)) (sym (append-nil s))
                      ∙ take-length s [];
                same_dirs = unfold count_written in o.same_dirs;
                same_idx = unfold count_written in o.same_idx;
              },
            )
        | inr part ↦
            let less : n < length s = ground (arith, part, le) in
            let more : 0 < n = some_taken (omega (arith, less)) in
            let left : length (drop n s) < fuel = omega (arith, length-drop n s, more, less, lt) in
            let place2 : HasPlace cq2.tempdirs cq2.tempdir_idx =
              unfold count_written in
              subst (λ ds. HasPlace ds cq1.tempdir_idx) (sym o.same_dirs)
                (subst (HasPlace cq.tempdirs) (sym o.same_idx) place) in
            let (cq', run2, r) =
              chunkqueue_append_mem_to_tempfile-Spilled fuel cq2 (drop n s) d place2 q2 left in
            (
              cq',
              rw run (rw (answer, part) run2),
              record {
                queue = r.queue;
                new = new ++ r.new;
                grew =
                    r.grew ∙ ap (λ u. u ++ r.new) grew ∙ append_assoc (stream cq.first) new r.new;
                as_many =
                    omega (arith, length-append new r.new, many, r.as_many, length-drop n s, less);
                in_files = All-append IsInFile new r.new there r.in_files;
                calls = o.calls ++ (write_fd fd s ∷ r.calls);
                calls_are =
                    r.calls_are
                    ∙ ap (λ u. u ++ r.calls)
                        (past ∙ ap (λ u. u ++ (write_fd fd s ∷ [])) o.calls_are)
                    ∙ append_assoc (cq.calls ++ o.calls) (write_fd fd s ∷ []) r.calls
                    ∙ append_assoc cq.calls o.calls (write_fd fd s ∷ r.calls);
                bytes =
                    o.no_bytes (write_fd fd s ∷ r.calls)
                    ∙ written_bytes-write disk cq1.calls fd s n r.calls answer
                    ∙ ap (λ u. take n s ++ u)
                        (ap (λ cs. written_bytes disk cs r.calls) (sym past) ∙ r.bytes)
                    ∙ take-append-drop n s;
                same_dirs = r.same_dirs ∙ (unfold count_written in o.same_dirs);
                same_idx = r.same_idx ∙ (unfold count_written in o.same_idx);
              },
            )
      ]
