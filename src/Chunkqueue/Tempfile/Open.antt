-- ===== src/Chunkqueue/Tempfile/Open.antt =====
-- The temporary file that bytes go to (src/chunk.c): the one of the last chunk, or a new one.
use lighttpd.Base.{
  ℕ, ◌+◌, ◌≤◌, ◌<◌, ◌≡◌, refl, sym, ap, ◌∙◌, ◌⊎◌, inl, inr, true, some, List, [], ◌∷◌, ◌++◌, arith,
  ◌==◌, Bool-cases, length, take, drop,
}
use lighttpd.Memory.{ok, Bytes, size_mod, Allocator, memcpy}
use lighttpd.Buffer.{Buffer, init, string_length, copy_string_len}
use lighttpd.Buffer.Holds.{IsSized, Holds, Stores, Holds-IsSized, string_of, string_of-Stores}
use lighttpd.Buffer.Slash.{with_slash, append_slash_lem}
use lighttpd.Buffer.Write.{append_string_len_lem, copy_string_len_lem, copy_buffer_lem}
use lighttpd.Chunk.{file_chunk, Call, make_temp, write_fd, Chunk, Chunkqueue, take_unused}
use lighttpd.Chunk.Octets.{stream}
use lighttpd.Chunkqueue.Cache.{IsQueue}
use lighttpd.Chunkqueue.Tempfile.{
  Written, wrote, write_failed, Disk, called, name_written, make_file, try_tempdirs, make_tempfile,
  default_template, template_name,
}
use lighttpd.Memory.Blocks.{memcpy_at}

-- A disk that makes files, takes some of the bytes each time, and closes files
pub record IsDisk (disk : Disk) : Type 0 where
  pub makes :
      (calls : List Call) (t : Bytes)
      → (fd : ℕ) × (name : Bytes) × (disk.mkstemp calls t ≡ some (fd, name))
        × (length name ≡ length t)
  pub takes :
      (calls : List Call) (fd : ℕ) (s : Bytes)
      → (n : ℕ) × (disk.write calls fd s ≡ wrote n) × (n ≤ length s) × (0 < length s → 0 < n)
  pub closes : (calls : List Call) (fd : ℕ) → disk.close calls fd ≡ true

-- The default directory, or one of those configured that is not too long
abbrev pub HasPlace : List Buffer → ℕ → Type 0
HasPlace tempdirs i =
    (tempdirs ≡ [])
    ⊎ ((d : Buffer) × (ds : List Buffer) × (dir : Buffer) × (dirs : List Buffer) × (name : Bytes)
        × (tempdirs ≡ d ∷ ds)
        × (drop i tempdirs ≡ dir ∷ dirs)
        × Stores dir name
        × (length name + 40 < size_mod))

abbrev pub after_write : Written → Bytes → Bytes → Bytes
after_write (wrote n) s rest = take n s ++ rest
after_write (write_failed e) s rest = rest

-- The bytes that the calls wrote, by what the disk answered
unfoldable pub written_bytes : Disk → List Call → List Call → Bytes
written_bytes disk past [] = []
written_bytes disk past (write_fd fd s ∷ cs) =
    let rest = written_bytes disk (past ++ (write_fd fd s ∷ [])) cs in
    after_write (disk.write past fd s) s rest
written_bytes disk past (c ∷ cs) = written_bytes disk (past ++ (c ∷ [])) cs

-- A file is open in the last chunk.
pub record Opened (disk : Disk) (cq cq1 : Chunkqueue) : Type 0 where
  pub front : List Chunk
  pub end : Chunk
  pub chain : cq1.first ≡ front ++ (end ∷ [])
  pub in_file : end.kind ≡ file_chunk
  pub unsent : end.offset ≡ 0
  pub queue : IsQueue cq1
  pub same : stream cq1.first ≡ stream cq.first
  pub calls : List Call
  pub calls_are : cq1.calls ≡ cq.calls ++ calls
  pub no_bytes :
      (rest : List Call)
      → written_bytes disk cq.calls (calls ++ rest) ≡ written_bytes disk cq1.calls rest
  pub same_dirs : cq1.tempdirs ≡ cq.tempdirs
  pub same_idx : cq1.tempdir_idx ≡ cq.tempdir_idx

make_file_lem :
    (h : Allocator) (disk : Disk) (cq : Chunkqueue) (b : Buffer) (text : Bytes)
    → IsDisk disk
    → Holds b text
    → (fd : ℕ) × (b' : Buffer) × (name : Bytes) × (t : Bytes) × (make_file h disk cq b
        ≡ ok (called cq (make_temp t), some (fd, b')))
      × Holds b' name
unfolding make_file name_written
make_file_lem h disk cq b text d k =
    let t = take (string_length b) b.ptr in
    let same : t ≡ text = unfold string_of in string_of-Stores {b = b} {s = text} (inr k) in
    let (fd, name, made, len) = d.makes cq.calls t in
    let len2 : length text ≡ length name = omega (arith, len, ap length same) in
    let run : memcpy b.ptr 0 name ≡ ok (name ++ (0 ∷ k.rest)) =
      ap (λ p. memcpy p 0 name) k.layout ∙ memcpy_at [] text name (0 ∷ k.rest) len2 in
    (
      fd,
      record b { ptr = name ++ (0 ∷ k.rest) },
      name,
      t,
      rw (made, run) refl,
      record {
        rest = k.rest;
        layout = refl;
        used_is = omega (arith, k.used_is, len2);
        size_is = omega (arith, k.size_is, len2);
        in_range = k.in_range;
      },
    )

pub taken-tempdirs :
    (cq : Chunkqueue) (us : List Chunk)
    → ((take_unused cq us).1.tempdirs ≡ cq.tempdirs)
      × ((take_unused cq us).1.tempdir_idx ≡ cq.tempdir_idx)
      × ((take_unused cq us).1.calls ≡ cq.calls)
taken-tempdirs cq [] = (refl, refl, refl)
taken-tempdirs cq (c ∷ us) = (refl, refl, refl)

with_slash-length : (s : Bytes) → length (with_slash s) ≤ length s + 1
with_slash-length [] = omega arith
with_slash-length (c ∷ []) = elim (Bool-cases (c == b'/')) [
  | inl e ↦ rw e (omega arith)
  | inr e ↦ rw e (omega arith)
]
with_slash-length (c ∷ d ∷ s) = omega (arith, with_slash-length (d ∷ s))

-- Calls that write no byte
pub written_bytes-other :
    (disk : Disk) (past : List Call) (t : Bytes) (rest : List Call)
    → written_bytes disk past ((make_temp t ∷ []) ++ rest)
      ≡ written_bytes disk (past ++ (make_temp t ∷ [])) rest
unfolding written_bytes
written_bytes-other disk past t rest = refl

module _ (h : Allocator) (ample : (n : ℕ) → h.grants n ≡ true) (disk : Disk) where
  made_in_dirs :
      (cq : Chunkqueue) (dir : Buffer) (dirs : List Buffer) (template : Buffer) (text : Bytes)
      → IsDisk disk
      → IsSized template
      → Stores dir text
      → length text + 40 < size_mod
      → (fd : ℕ) × (b' : Buffer) × (name : Bytes) × (t : Bytes) × (try_tempdirs h disk cq
            (dir ∷ dirs)
            template
          ≡ ok (called cq (make_temp t), some (fd, b')))
        × Holds b' name
  unfolding try_tempdirs
  made_in_dirs cq dir dirs template text d z k lt =
      let (t1, run1, k1, u) = copy_buffer_lem h ample template text z k in
      let (t2, run2, k2) = append_slash_lem h ample text k1 (omega (arith, lt)) in
      let (t3, run3, k3) =
        append_string_len_lem h ample (with_slash text) template_name k2
          (omega (arith, lt, with_slash-length text)) in
      let (fd, b', name, t, run4, done) =
        make_file_lem h disk cq t3 (with_slash text ++ template_name) d k3 in
      (fd, b', name, t, rw (run1, run2, run3) (rw run4 refl), done)

  pub made :
      (cq : Chunkqueue)
      → IsDisk disk
      → HasPlace cq.tempdirs cq.tempdir_idx
      → (b : Buffer) × (copy_string_len h init default_template ≡ ok b)
        × (fd : ℕ) × (b' : Buffer) × (name : Bytes) × (t : Bytes) × (make_tempfile h disk cq
              cq.tempdirs b
            ≡ ok (called cq (make_temp t), some (fd, b')))
        × Holds b' name
  unfolding make_tempfile
  made cq d place =
      let (b, run, k) =
        copy_string_len_lem h ample init default_template
          (record { size_is = refl; in_range = omega arith }) (omega arith) in
      elim place [
        | inl default_dir ↦
            let (fd, b', name, t, run2, done) = make_file_lem h disk cq b default_template d k in
            (
              b,
              run,
              fd,
              b',
              name,
              t,
              ap (λ ds. make_tempfile h disk cq ds b) default_dir ∙ run2,
              done,
            )
        | inr (e, es, dir, dirs, text, some_dirs, at, stored, lt) ↦
            let (fd, b', name, t, run2, done) =
              made_in_dirs cq dir dirs b text d (Holds-IsSized k) stored lt in
            (
              b,
              run,
              fd,
              b',
              name,
              t,
              ap (λ ds. make_tempfile h disk cq ds b) some_dirs
                  ∙ ap (λ ds. try_tempdirs h disk cq ds b)
                      (ap (drop cq.tempdir_idx) (sym some_dirs) ∙ at)
                  ∙ run2,
              done,
            )
      ]
