-- ===== src/Chunkqueue/Reading.antt =====
-- Reading into the last chunk of a queue: `chunkqueue_get_memory` and `chunkqueue_use_memory`
-- (src/chunk.c), with what the caller does between them.
pub mod Filled
use lighttpd.Base.{
  ℕ, ◌+◌, ◌≤◌, ◌<◌, ◌≡◌, refl, ap, ◌∙◌, ◌⊎◌, inl, inr, true, false, ◌&&◌, some, List, [], ◌∷◌, ◌++◌,
  append-nil, arith, ltb, leb, Bool-cases, length, All,
}
use lighttpd.Memory.{Outcome, ok, ◌>>=◌, ◌>>◌, Bytes, size_mod, Allocator, memcpy}
use lighttpd.Buffer.{Buffer, string_space}
use lighttpd.Buffer.Holds.{
  Holds, Stores, Stores-IsSized, string_length-Stores, string_is_empty-Stores,
}
use lighttpd.Buffer.Room.{string_prepare_copy_lem, string_prepare_append_lem}
use lighttpd.Chunk.{Kind, mem_chunk, file_chunk, Chunk, Chunkqueue, chunkqueue_get_unused_chunk}
use lighttpd.Chunk.Octets.{Octet, mem_octets, stream, IsChunk, IsMem, stream-append, stream_one}
use lighttpd.Chunkqueue.{chunkqueue_append_chunk}
use lighttpd.Chunkqueue.Append.{mem-IsChunk, nonempty}
use lighttpd.Chunkqueue.Cache.{
  HasCache, IsQueue, Unmoved, chunkqueue_get_unused_chunk-Taken, All-append,
  chunkqueue_append_chunk_lem, Unmoved-IsQueue,
}
use lighttpd.Chunkqueue.LastChunk.{
  last_chunk-nil, last_chunk-append, set_last-IsMem, last_cases, All-split, replaced_last,
}
use lighttpd.Chunkqueue.Transfer.{
  last_chunk, set_last, is_mem, mem_of, more_room, grow_last, get_new_memory, get_memory_of,
}

-- What the caller puts into the memory that it was given
unfoldable pub fill_memory : Chunkqueue → ℕ → Bytes → Outcome Chunkqueue
fill_memory cq target t = do
  let b = mem_of (last_chunk cq.first)
  m ← memcpy b.ptr target t
  ok (record cq { first = set_last cq.first (record b { ptr = m }) })

pub string_space-Holds : {b : Buffer} {s : Bytes} → (k : Holds b s) → string_space b ≡ length k.rest
unfolding string_space
string_space-Holds {b} {s} k = ground (arith, k.used_is, k.size_is, k.in_range)

-- Memory at the end of a queue: `n` bytes from `target` on, behind the text of the last chunk
pub record Offers (cq : Chunkqueue) (t : List Octet) (target n : ℕ) : Type 0 where
  pub front : List Chunk
  pub end : Chunk
  pub chain : cq.first ≡ front ++ (end ∷ [])
  pub in_mem : end.kind ≡ mem_chunk
  pub text : Bytes
  pub holds : Holds end.mem text
  pub room : n ≤ length holds.rest
  pub at_end : target ≡ length text
  pub queue : IsQueue cq
  pub same : stream cq.first ≡ t

-- The same with no more text: the counters stay.
kept_last :
    (cq : Chunkqueue) (ds : List Chunk) (c : Chunk) (b : Buffer) (s : Bytes) (n : ℕ)
    → IsQueue cq
    → cq.first ≡ ds ++ (c ∷ [])
    → c.kind ≡ mem_chunk
    → Stores c.mem s
    → (k : Holds b s) → n ≤ length k.rest
    → Offers (record cq { first = set_last cq.first b }) (stream cq.first) (length s) n
kept_last cq ds c b s n q chain e old k le =
    let ((q', grown), chain') =
      replaced_last cq ds c b s [] q chain e old (rw (append-nil s) (inr k)) in
    let same : stream (set_last cq.first b) ≡ stream cq.first =
      grown ∙ unfold mem_octets in append-nil (stream cq.first) in
    record {
      front = ds;
      end = record c { mem = b };
      chain = chain';
      in_mem = e;
      text = s;
      holds = k;
      room = le;
      at_end = refl;
      queue = record {
        cache = record {
          cached = q.cache.cached;
          counted = q.cache.counted;
          bounded = q.cache.bounded;
        };
        chunks = q'.chunks;
        balance = omega (arith, q.balance, ap length same);
      };
      same = same;
    }

pub Kind-cases : (k : Kind) → (k ≡ mem_chunk) ⊎ (k ≡ file_chunk)
Kind-cases mem_chunk = inl refl
Kind-cases file_chunk = inr refl

is_mem-file : (c : Chunk) → c.kind ≡ file_chunk → is_mem (some c) ≡ false
is_mem-file c e = rw e refl

is_mem-mem : (c : Chunk) → c.kind ≡ mem_chunk → is_mem (some c) ≡ true
is_mem-mem c e = rw e refl

le_refl : (n : ℕ) → n ≤ n
le_refl n = omega arith

Offers-same :
    {cq : Chunkqueue} {t u : List Octet} {target n : ℕ}
    → Offers cq t target n
    → t ≡ u
    → Offers cq u target n
Offers-same o e = record {
  front = o.front;
  end = o.end;
  chain = o.chain;
  in_mem = o.in_mem;
  text = o.text;
  holds = o.holds;
  room = o.room;
  at_end = o.at_end;
  queue = o.queue;
  same = o.same ∙ e;
}

append_new :
    (cq cq1 : Chunkqueue) (c : Chunk)
    → IsQueue cq
    → HasCache cq1
    → Unmoved cq cq1
    → IsChunk c
    → (cq' : Chunkqueue) × (chunkqueue_append_chunk cq1 c ≡ ok cq')
      × IsQueue cq'
      × (cq'.first ≡ cq.first ++ (c ∷ []))
append_new cq cq1 c q k u d =
    let (cq', run, q', e) = chunkqueue_append_chunk_lem cq1 c (Unmoved-IsQueue cq cq1 q k u) d in
    (cq', run, q', e ∙ ap (λ cs. cs ++ (c ∷ [])) u.same_first)

-- What the caller of `chunkqueue_get_memory` is given
abbrev pub Given : Chunkqueue → Outcome (Chunkqueue × ℕ × ℕ) → ℕ → Type 0
Given cq m least =
    (cq' : Chunkqueue) × (target : ℕ) × (n : ℕ) × (m ≡ ok (cq', target, n))
    × Offers cq' (stream cq.first) target n
    × (least ≤ n)
    × (All IsMem cq.first → All IsMem cq'.first)

module _ (h : Allocator) (ample : (n : ℕ) → h.grants n ≡ true) where
  get_new_memory-Given :
      (cq : Chunkqueue) (alloc_size : ℕ)
      → IsQueue cq
      → alloc_size + 1024 < size_mod
      → Given cq (get_new_memory h cq alloc_size) alloc_size
  unfolding get_new_memory
  get_new_memory-Given cq alloc_size q lt =
      let w = chunkqueue_get_unused_chunk-Taken cq q.cache in
      let (c, cq1) = chunkqueue_get_unused_chunk cq in
      let c' = record c { kind = mem_chunk } in
      let (d, o) = mem-IsChunk c c.mem [] w.clean w.clean.no_text in
      let (cq2, run, q2, e) = append_new cq cq1 c' q w.cache w.unmoved d in
      let (b, run2, room) =
        string_prepare_append_lem h ample [] alloc_size w.clean.no_text (omega (arith, lt)) in
      let given =
        kept_last cq2 cq.first c' b [] (length room.holds.rest) q2 e refl w.clean.no_text room.holds
          (le_refl (length room.holds.rest)) in
      let same : stream cq2.first ≡ stream cq.first =
        ap stream e
        ∙ stream-append cq.first (c' ∷ [])
        ∙ ap (λ u. stream cq.first ++ u) (stream_one c' ∙ o)
        ∙ unfold mem_octets in append-nil (stream cq.first) in
      (
        record cq2 { first = set_last cq2.first b },
        0,
        length room.holds.rest,
        rw (run, run2)
            (rw
              (
                string_length-Stores {b = b} {s = []} (inr room.holds),
                string_space-Holds room.holds,
              )
              refl),
        Offers-same given same,
        room.room,
        λ m. set_last-IsMem cq2.first b (rw e (All-append IsMem cq.first (c' ∷ []) m (refl, tt))),
      )

  more_room_lem :
      (b : Buffer) (s : Bytes) (min_size alloc_size : ℕ)
      → Holds b s
      → b.size ≤ 256
      → min_size + 1024 < size_mod
      → alloc_size + 1024 < size_mod
      → length s + 1 + more_room b min_size alloc_size < size_mod
  unfolding more_room
  more_room_lem b s min_size alloc_size k small p q =
      ground (arith, string_length-Stores {b = b} {s = s} (inr k), k.size_is)

  grow_last_lem :
      (b : Buffer) (s : Bytes) (min_size alloc_size : ℕ)
      → Stores b s
      → min_size + 1024 < size_mod
      → alloc_size + 1024 < size_mod
      → (b' : Buffer) × (grow_last h b min_size alloc_size ≡ ok b') × Holds b' s
  unfolding grow_last
  grow_last_lem b [] min_size alloc_size k p q =
      let (b', run, room) =
        string_prepare_copy_lem h ample b alloc_size (Stores-IsSized k) (omega (arith, q)) in
      (b', rw (string_is_empty-Stores k, run) refl, room.holds)
  grow_last_lem b (x ∷ s) min_size alloc_size (inl u) p q = cc (u.2)
  grow_last_lem b (x ∷ s) min_size alloc_size (inr k) p q =
      let full = string_is_empty-Stores {b = b} {s = x ∷ s} (inr k) ∙ nonempty x s in
      elim (Bool-cases (
        ltb (string_space b) min_size
        && (leb b.size 256 && leb min_size (more_room b min_size alloc_size)))) [
          | inl grow ↦
              let (b', run, room) =
                string_prepare_append_lem h ample (x ∷ s) (more_room b min_size alloc_size) (inr k)
                  (more_room_lem b (x ∷ s) min_size alloc_size k (ground (arith, grow)) p q) in
              (b', rw (full, grow, run) refl, room.holds)
          | inr enough ↦ (b, rw (full, enough) refl, k)
        ]

  pub get_memory_of-Given :
      (cq : Chunkqueue) (min_size alloc_size : ℕ)
      → IsQueue cq
      → min_size ≤ alloc_size
      → alloc_size + 1024 < size_mod
      → Given cq (get_memory_of h cq min_size alloc_size) min_size
  unfolding get_memory_of
  get_memory_of-Given cq min_size alloc_size q le lt = elim (last_cases cq.first) [
    | inl none_there ↦
        let (cq', target, n, run, o, more, mems) = get_new_memory-Given cq alloc_size q lt in
        (
          cq',
          target,
          n,
          rw (ap last_chunk none_there ∙ last_chunk-nil) run,
          o,
          omega (arith, more),
          mems,
        )
    | inr (ds, c, chain) ↦
        let end = ap last_chunk chain ∙ last_chunk-append ds c in
        elim (Kind-cases c.kind) [
          | inr file_there ↦
              let (cq', target, n, run, o, more, mems) = get_new_memory-Given cq alloc_size q lt in
              (cq', target, n, rw (end, is_mem-file c file_there) run, o, omega (arith, more), mems)
          | inl mem_there ↦
              let k = (All-split ds c (rw chain at q.chunks)).1 in
              let (b, run, holds) =
                grow_last_lem c.mem k.text min_size alloc_size k.stored (omega (arith, lt)) lt in
              let given =
                kept_last cq ds c b k.text (length holds.rest) q chain mem_there k.stored holds
                  (le_refl (length holds.rest)) in
              let cq1 = record cq { first = set_last cq.first b } in
              elim (Bool-cases (leb min_size (string_space b))) [
                | inl enough ↦ (
                  cq1,
                  length k.text,
                  length holds.rest,
                  rw (end, is_mem-mem c mem_there, run, enough)
                      (rw
                        (
                          string_length-Stores {b = b} {s = k.text} (inr holds),
                          string_space-Holds holds,
                        )
                        refl),
                  given,
                  ground (arith, enough, string_space-Holds holds),
                  λ m. set_last-IsMem cq.first b m,
                )
                | inr little ↦
                    let (cq', target, n, run2, o, more, mems) =
                      get_new_memory-Given cq1 alloc_size given.queue lt in
                    (
                      cq',
                      target,
                      n,
                      rw (end, is_mem-mem c mem_there, run, little) run2,
                      Offers-same o given.same,
                      omega (arith, more),
                      λ m. mems (set_last-IsMem cq.first b m),
                    )
              ]
        ]
  ]

set_last-set_last : (cs : List Chunk) (a b : Buffer) → set_last (set_last cs a) b ≡ set_last cs b
unfolding set_last
set_last-set_last [] a b = refl
set_last-set_last (c ∷ []) a b = refl
set_last-set_last (c ∷ d ∷ []) a b = refl
set_last-set_last (c ∷ d ∷ e ∷ cs) a b = ap (◌∷◌ c) (set_last-set_last (d ∷ e ∷ cs) a b)
