-- ===== src/Chunkqueue/Tempfile.antt =====
-- The functions of src/chunk.c that put bytes into temporary files. What the system answers to
-- `mkstemp`, `write` and `close` is a parameter, and depends on the calls before. The log is not
-- modelled. An array of directories with no entry stands for none.
pub mod Open
pub mod New
pub mod Choose
pub mod Loop
pub mod Sequence
use lighttpd.Base.{
  ℕ, zero, suc, ◌+◌, Bool, true, false, ◌&&◌, Option, none, some, List, [], ◌∷◌, ◌++◌, ltb, leb,
  ◌==◌, if◌then◌else◌, length, take, drop,
}
use lighttpd.Memory.{Outcome, ok, fault, ◌>>=◌, ◌>>◌, Bytes, Allocator, codes, memcpy}
use lighttpd.Buffer.{
  Buffer, init, string_length, copy_string_len, copy_buffer, append_string_len, append_slash,
}
use lighttpd.Chunk.{
  Kind, mem_chunk, file_chunk, Call, close_fd, make_temp, write_fd, Chunk, Chunkqueue,
  chunk_remaining_length, chunkqueue_get_unused_chunk,
}
use lighttpd.Chunkqueue.{chunkqueue_append_chunk, chunkqueue_remove_empty_chunks}
use lighttpd.Chunkqueue.Transfer.{last_chunk}

-- The error numbers of `write` that are told apart
pub data WriteErrno : Type 0 where
  write_eintr enospc write_other : WriteErrno

pub data Written : Type 0 where
  wrote : ℕ → Written
  write_failed : WriteErrno → Written

-- A file descriptor and the name that replaces the template; how many bytes are written; whether
-- `close` gives 0
pub record Disk : Type 0 where
  pub mkstemp : List Call → Bytes → Option (ℕ × Bytes)
  pub write : List Call → ℕ → Bytes → Written
  pub close : List Call → ℕ → Bool

abbrev pub called : Chunkqueue → Call → Chunkqueue
called cq e = record cq { calls = cq.calls ++ (e ∷ []) }

abbrev default_template : Bytes
default_template = codes "/var/tmp/lighttpd-upload-XXXXXX"

abbrev template_name : Bytes
template_name = codes "lighttpd-upload-XXXXXX"

-- The chain with its last chunk changed
unfoldable pub change_last : (Chunk → Chunk) → List Chunk → List Chunk
change_last f [] = []
change_last f (c ∷ []) = f c ∷ []
change_last f (c ∷ d ∷ cs) = c ∷ change_last f (d ∷ cs)

-- `dst_c` before the file is made
pub data Choice : Type 0 where
  last_is : ℕ → Choice
  none_fits close_failed : Choice

unfoldable pub fd_of : Option Chunk → Option ℕ
fd_of none = none
fd_of (some c) = c.fd

-- `file.length` and `bytes_in` after `n` bytes
unfoldable pub count_written : Chunkqueue → ℕ → Chunkqueue
count_written cq n = record cq {
  first = change_last (λ c. record c { file_length = c.file_length + n }) cq.first;
  bytes_in = cq.bytes_in + n;
}

-- `retry`, with the next directory
unfoldable pub next_tempdir : Chunkqueue → WriteErrno → Chunkqueue × Bool
next_tempdir cq enospc = elim cq.tempdirs [
  | [] ↦ (cq, false)
  | dir ∷ dirs ↦ (
    record cq { tempdir_idx = cq.tempdir_idx + 1 },
    ltb (cq.tempdir_idx + 1) (length cq.tempdirs),
  )
]
next_tempdir cq _ = (cq, false)

unfoldable pub last_remaining : Option Chunk → Outcome ℕ
last_remaining none = ok 0
last_remaining (some c) = chunk_remaining_length c

module _ (h : Allocator) (disk : Disk) where
  -- `mkstemp` writes the name over the template.
  unfoldable pub name_written : Buffer → Option (ℕ × Bytes) → Outcome (Option (ℕ × Buffer))
  name_written b none = ok none
  name_written b (some (fd, name)) = do
    m ← memcpy b.ptr 0 name
    ok (some (fd, record b { ptr = m }))

  unfoldable pub make_file : Chunkqueue → Buffer → Outcome (Chunkqueue × Option (ℕ × Buffer))
  make_file cq b = do
    made ← name_written b (disk.mkstemp cq.calls (take (string_length b) b.ptr))
    ok (called cq (make_temp (take (string_length b) b.ptr)), made)

  -- The directories from `tempdir_idx` on
  unfoldable pub try_tempdirs :
      Chunkqueue → List Buffer → Buffer → Outcome (Chunkqueue × Option (ℕ × Buffer))
  try_tempdirs cq [] template = ok (cq, none)
  try_tempdirs cq (dir ∷ dirs) template = do
    t1 ← copy_buffer h template dir
    t2 ← append_slash h t1
    t3 ← append_string_len h t2 template_name
    (cq', made) ← make_file cq t3
    elim made [
      | some r ↦ ok (cq', some r)
      | none ↦ try_tempdirs (record cq' { tempdir_idx = cq'.tempdir_idx + 1 }) dirs t3
    ]

  unfoldable pub make_tempfile :
      Chunkqueue → List Buffer → Buffer → Outcome (Chunkqueue × Option (ℕ × Buffer))
  make_tempfile cq [] template = make_file cq template
  make_tempfile cq (dir ∷ dirs) template =
      try_tempdirs cq (drop cq.tempdir_idx (dir ∷ dirs)) template

  -- The chunk for a new file
  unfoldable pub append_tempfile : Chunkqueue → Option (ℕ × Buffer) → Outcome (Chunkqueue × Bool)
  append_tempfile cq none = ok (cq, false)
  append_tempfile cq (some (fd, template)) = do
    let (c, cq') = chunkqueue_get_unused_chunk cq
    name ← copy_buffer h c.file_name template
    cq'' ← chunkqueue_append_chunk cq' (record c {
      kind = file_chunk;
      fd = some fd;
      is_temp = true;
      file_name = name;
      file_length = 0;
    })
    ok (cq'', true)

  -- Whether there is a file; its chunk is then the last.
  unfoldable pub chunkqueue_get_append_tempfile : Chunkqueue → Outcome (Chunkqueue × Bool)
  chunkqueue_get_append_tempfile cq = do
    template ← copy_string_len h init default_template
    (cq', made) ← make_tempfile cq cq.tempdirs template
    append_tempfile cq' made

  -- Closing the file of the last chunk, which has the descriptor `fd`: whether it gave 0
  unfoldable pub close_file : Chunkqueue → ℕ → Chunkqueue × Bool
  close_file cq fd = (
    called (record cq { first = change_last (λ c. record c { fd = none }) cq.first }) (close_fd fd),
    disk.close cq.calls fd,
  )

  -- The last chunk, where it is good for more bytes
  unfoldable pub choose_fd : Chunkqueue → Chunk → Option ℕ → Chunkqueue × Choice
  choose_fd cq c none = (cq, none_fits)
  choose_fd cq c (some fd) =
      if c.is_temp && c.offset == 0
      then (if leb cq.upload_temp_file_size c.file_length
          then ((close_file cq fd).0, (if (close_file cq fd).1 then none_fits else close_failed))
          else (cq, last_is fd))
      else (cq, none_fits)

  unfoldable pub choose_kind : Chunkqueue → Chunk → Kind → Chunkqueue × Choice
  choose_kind cq c mem_chunk = (cq, none_fits)
  choose_kind cq c file_chunk = choose_fd cq c c.fd

  unfoldable pub choose_last : Chunkqueue → Option Chunk → Chunkqueue × Choice
  choose_last cq none = (cq, none_fits)
  choose_last cq (some c) = choose_kind cq c c.kind

  -- The descriptor of the last chunk, with the file made where it must be
  unfoldable pub open_last : Chunkqueue → Choice → Outcome (Chunkqueue × Option ℕ)
  open_last cq (last_is fd) = ok (cq, some fd)
  open_last cq close_failed = ok (cq, none)
  open_last cq none_fits = do
    (cq', there) ← chunkqueue_get_append_tempfile cq
    ok (cq', (if there then fd_of (last_chunk cq'.first) else none))

  -- After an error of `write` other than EINTR: whether to try again
  unfoldable pub give_up_file : Chunkqueue → ℕ → WriteErrno → Outcome (Chunkqueue × Bool)
  give_up_file cq fd e = do
    let (cq', retry) = next_tempdir cq e
    n ← last_remaining (last_chunk cq'.first)
    if n == 0
        then (chunkqueue_remove_empty_chunks cq' >>= λ cq''. ok (cq'', retry))
        else ok ((close_file cq' fd).0, (close_file cq' fd).1 && retry)

  -- The loop, on fuel: whether it returned 0. A last chunk with no descriptor is not written to.
  unfoldable pub chunkqueue_append_mem_to_tempfile :
      ℕ → Chunkqueue → Bytes → Outcome (Chunkqueue × Bool)
  chunkqueue_append_mem_to_tempfile zero cq s = fault
  chunkqueue_append_mem_to_tempfile (suc fuel) cq s = do
    let (cq0, choice) = choose_last cq (last_chunk cq.first)
    (cq1, opened) ← open_last cq0 choice
    elim opened [
      | none ↦ ok (cq1, false)
      | some fd ↦
          (let cq2 = called cq1 (write_fd fd s) in
            elim (disk.write cq1.calls fd s) [
              | wrote n ↦
                  if n == length s
                  then ok (count_written cq2 n, true)
                  else chunkqueue_append_mem_to_tempfile fuel (count_written cq2 n) (drop n s)
              | write_failed write_eintr ↦ chunkqueue_append_mem_to_tempfile fuel cq2 s
              | write_failed e ↦
                  (give_up_file cq2 fd e >>= λ (cq3, retry). elim retry [
                    | true ↦ chunkqueue_append_mem_to_tempfile fuel cq3 s
                    | false ↦ ok (cq3, false)
                  ])
            ])
    ]
