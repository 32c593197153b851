-- ===== src/Chunkqueue/Reset.antt =====
-- `chunkqueue_reset` (src/chunk.c), and the files that it lets go.
use lighttpd.Base.{
  ℕ, suc, ◌+◌, ◌≡◌, refl, sym, ap, ◌∙◌, Bool, true, false, not, ◌&&◌, Option, none, some, List, [],
  ◌∷◌, ◌++◌, append-nil, append_assoc, arith, ◌==◌, if◌then◌else◌, length, All,
}
use lighttpd.Memory.{ok, Bytes}
use lighttpd.Buffer.{string_is_empty}
use lighttpd.Buffer.Holds.{Stores-IsSized, string_is_empty-Stores, string_of, string_of-Stores}
use lighttpd.Chunk.{Call, unlink, close_fd, unmap, Chunk, Chunkqueue, fd_calls, reset_calls}
use lighttpd.Chunk.Octets.{stream, IsChunk}
use lighttpd.Chunkqueue.{push_all, chunkqueue_reset}
use lighttpd.Chunkqueue.Cache.{
  HasCache, IsQueue, Unmoved, Unmoved-trans, Unmoved-refl, chunkqueue_push_unused_chunk_lem,
}

-- The calls for the chunks of a chain
unfoldable all_reset_calls : List Chunk → List Call
all_reset_calls [] = []
all_reset_calls (c ∷ cs) = reset_calls c ++ all_reset_calls cs

push_all_lem :
    (cq : Chunkqueue) (cs : List Chunk)
    → HasCache cq
    → All IsChunk cs
    → (cq' : Chunkqueue) × (push_all cq cs ≡ ok cq')
      × HasCache cq'
      × Unmoved cq cq'
      × (cq'.calls ≡ cq.calls ++ all_reset_calls cs)
unfolding push_all all_reset_calls
push_all_lem cq [] k d = (cq, refl, k, Unmoved-refl cq, sym (append-nil cq.calls))
push_all_lem cq (c ∷ cs) k d =
    let (cq1, run, cache, u, calls) =
      chunkqueue_push_unused_chunk_lem cq c k (Stores-IsSized (d.0).stored)
        (Stores-IsSized (d.0).named) in
    let (cq', run2, cache2, u2, calls2) = push_all_lem cq1 cs cache (d.1) in
    (
      cq',
      rw run run2,
      cache2,
      Unmoved-trans cq cq1 cq' u u2,
      calls2 ∙ rw calls (append_assoc cq.calls (reset_calls c) (all_reset_calls cs)),
    )

-- The descriptors that are closed, the names that are unlinked, and how many files are unmapped
unfoldable pub closed_fds : List Call → List ℕ
closed_fds [] = []
closed_fds (close_fd fd ∷ cs) = fd ∷ closed_fds cs
closed_fds (c ∷ cs) = closed_fds cs

unfoldable pub unlinked : List Call → List Bytes
unlinked [] = []
unlinked (unlink name ∷ cs) = name ∷ unlinked cs
unlinked (c ∷ cs) = unlinked cs

unfoldable pub unmaps : List Call → ℕ
unmaps [] = 0
unmaps (unmap ∷ cs) = suc (unmaps cs)
unmaps (c ∷ cs) = unmaps cs

-- The descriptors that the chunks of a chain have, the blocks of the names of its temporary files,
-- and how many of its files are mapped
abbrev fd_list : Option ℕ → List ℕ
fd_list none = []
fd_list (some fd) = fd ∷ []

unfoldable pub open_fds : List Chunk → List ℕ
open_fds [] = []
open_fds (c ∷ cs) = fd_list c.fd ++ open_fds cs

unfoldable pub temp_names : List Chunk → List Bytes
temp_names [] = []
temp_names (c ∷ cs) =
    (if c.is_temp && not (length (string_of c.file_name) == 0) then c.file_name.ptr ∷ [] else [])
    ++ temp_names cs

unfoldable pub mapped_files : List Chunk → ℕ
mapped_files [] = 0
mapped_files (c ∷ cs) = (if c.mapped then 1 else 0) + mapped_files cs

-- The calls close, unlink and unmap what the chunks have, and no more.
pub record Released (cs : List Chunk) (calls : List Call) : Type 0 where
  pub closes : closed_fds calls ≡ open_fds cs
  pub unlinks : unlinked calls ≡ temp_names cs
  pub unmaps_all : unmaps calls ≡ mapped_files cs

calls_of_one :
    (is_temp : Bool) (name : Bytes) (fd : Option ℕ) (mapped : Bool) (rest : List Call)
    → let calls : List Call =
        ((if is_temp then unlink name ∷ [] else [])
          ++ (fd_calls fd ++ (if mapped then unmap ∷ [] else [])))
        ++ rest in
      (closed_fds calls ≡ fd_list fd ++ closed_fds rest)
      × (unlinked calls ≡ (if is_temp then name ∷ [] else []) ++ unlinked rest)
      × (unmaps calls ≡ (if mapped then 1 else 0) + unmaps rest)
unfolding closed_fds unlinked unmaps
calls_of_one true name none true rest = (refl, refl, omega arith)
calls_of_one true name none false rest = (refl, refl, omega arith)
calls_of_one true name (some fd) true rest = (refl, refl, omega arith)
calls_of_one true name (some fd) false rest = (refl, refl, omega arith)
calls_of_one false name none true rest = (refl, refl, omega arith)
calls_of_one false name none false rest = (refl, refl, omega arith)
calls_of_one false name (some fd) true rest = (refl, refl, omega arith)
calls_of_one false name (some fd) false rest = (refl, refl, omega arith)

all_reset_calls-Released : (cs : List Chunk) → All IsChunk cs → Released cs (all_reset_calls cs)
unfolding all_reset_calls reset_calls closed_fds unlinked unmaps open_fds temp_names mapped_files
all_reset_calls-Released [] d = record { closes = refl; unlinks = refl; unmaps_all = refl }
all_reset_calls-Released (c ∷ cs) d =
    let r = all_reset_calls-Released cs (d.1) in
    let named : string_is_empty c.file_name ≡ (length (string_of c.file_name) == 0) =
      string_is_empty-Stores (d.0).named
      ∙ ap (λ (s : Bytes). length s == 0) (sym (string_of-Stores (d.0).named)) in
    let (a, b, e) =
      calls_of_one (c.is_temp && not (string_is_empty c.file_name)) c.file_name.ptr c.fd c.mapped
        (all_reset_calls cs) in
    record {
      closes = a ∙ ap (λ u. fd_list c.fd ++ u) r.closes;
      unlinks =
          b
          ∙ ap
              (λ (x : Bool).
                (if c.is_temp && not x then c.file_name.ptr ∷ [] else [])
                ++ unlinked (all_reset_calls cs))
              named
          ∙ ap
              (λ u.
                (if c.is_temp && not (length (string_of c.file_name) == 0)
                  then c.file_name.ptr ∷ []
                  else [])
                ++ u)
              r.unlinks;
      unmaps_all = e ∙ ap (λ u. (if c.mapped then 1 else 0) + u) r.unmaps_all;
    }

-- Where a queue keeps its invariant, `chunkqueue_reset` returns an empty queue that keeps it, its
-- counters at 0. The calls that it has made close each descriptor that the chunks had, in their
-- order, unlink each temporary file with a name, unmap as many files as were mapped, and close and
-- unlink nothing else.
pub chunkqueue_reset_lem :
    (cq : Chunkqueue)
    → IsQueue cq
    → (cq' : Chunkqueue) × (chunkqueue_reset cq ≡ ok cq')
      × IsQueue cq'
      × (cq'.first ≡ [])
      × (cq'.bytes_in ≡ 0)
      × (cq'.bytes_out ≡ 0)
      × (calls : List Call) × (cq'.calls ≡ cq.calls ++ calls)
      × Released cq.first calls
unfolding chunkqueue_reset
chunkqueue_reset_lem cq k =
    let emptied = record cq { first = [] } in
    let cache : HasCache emptied = record {
      cached = k.cache.cached;
      counted = k.cache.counted;
      bounded = k.cache.bounded;
    } in
    let (cq', run, cache', u, calls) = push_all_lem emptied cq.first cache k.chunks in
    (
      record cq' { bytes_in = 0; bytes_out = 0; tempdir_idx = 0 },
      rw run refl,
      record {
        cache = record {
          cached = cache'.cached;
          counted = cache'.counted;
          bounded = cache'.bounded;
        };
        chunks = rw u.same_first tt;
        balance = rw u.same_first (unfold stream in refl);
      },
      u.same_first,
      refl,
      refl,
      all_reset_calls cq.first,
      calls,
      all_reset_calls-Released cq.first k.chunks,
    )
