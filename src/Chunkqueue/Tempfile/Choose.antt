-- ===== src/Chunkqueue/Tempfile/Choose.antt =====
-- Which temporary file bytes go to (src/chunk.c).
use mathlib.Core.Path.{subst}
use lighttpd.Base.{
  ℕ, ◌≡◌, refl, sym, ap, ◌∙◌, inl, inr, true, ◌&&◌, Option, none, some, List, [], ◌∷◌, ◌++◌,
  append-nil, append_assoc, arith, leb, ◌==◌, Bool-cases, length,
}
use lighttpd.Memory.{ok, Allocator}
use lighttpd.Chunk.{Kind, mem_chunk, file_chunk, close_fd, Chunk, Chunkqueue, whole_length}
use lighttpd.Chunk.Octets.{octets_as, stream, IsChunk, stream-append, stream_one}
use lighttpd.Chunkqueue.Cache.{IsQueue, All-append}
use lighttpd.Chunkqueue.LastChunk.{last_chunk-nil, last_chunk-append, last_cases, All-split}
use lighttpd.Chunkqueue.Reading.{Kind-cases}
use lighttpd.Chunkqueue.Tempfile.{
  Disk, called, change_last, Choice, close_file, choose_fd, choose_kind, choose_last, open_last,
}
use lighttpd.Chunkqueue.Tempfile.New.{new_file}
use lighttpd.Chunkqueue.Tempfile.Open.{IsDisk, HasPlace, written_bytes, Opened}
use lighttpd.Chunkqueue.Transfer.{last_chunk}

pub change_last-append :
    (f : Chunk → Chunk) (ds : List Chunk) (c : Chunk)
    → change_last f (ds ++ (c ∷ [])) ≡ ds ++ (f c ∷ [])
unfolding change_last
change_last-append f [] c = refl
change_last-append f (d ∷ []) c = refl
change_last-append f (d ∷ e ∷ ds) c = ap (◌∷◌ d) (change_last-append f (e ∷ ds) c)

octets_as-fd :
    (c : Chunk) (k : Kind) (f : Option ℕ) → octets_as (record c { fd = f }) k ≡ octets_as c k
unfolding octets_as
octets_as-fd c mem_chunk f = refl
octets_as-fd c file_chunk f = refl

whole_length-fd :
    (c : Chunk) (k : Kind) (f : Option ℕ) → whole_length (record c { fd = f }) k ≡ whole_length c k
unfolding whole_length
whole_length-fd c mem_chunk f = refl
whole_length-fd c file_chunk f = refl

module _ (h : Allocator) (disk : Disk) where
  -- The queue after the file of its last chunk is closed
  abbrev closed : Chunkqueue → ℕ → Chunkqueue
  closed cq fd =
      called (record cq { first = change_last (λ c. record c { fd = none }) cq.first })
        (close_fd fd)

  closed-IsQueue :
      (cq : Chunkqueue) (fd : ℕ) (ds : List Chunk) (c : Chunk)
      → IsQueue cq
      → cq.first ≡ ds ++ (c ∷ [])
      → IsQueue (closed cq fd) × (stream (closed cq fd).first ≡ stream cq.first)
  closed-IsQueue cq fd ds c q chain =
      let f : Chunk → Chunk = λ c. record c { fd = none } in
      let (dsk, k) = All-split ds c (rw chain at q.chunks) in
      let chain' : change_last f cq.first ≡ ds ++ (f c ∷ []) =
        ap (change_last f) chain ∙ change_last-append f ds c in
      let k' : IsChunk (f c) = record {
        text = k.text;
        stored = k.stored;
        name = k.name;
        named = k.named;
        within = omega (arith, k.within, whole_length-fd c c.kind none);
      } in
      let same : stream (change_last f cq.first) ≡ stream cq.first =
        ap stream chain'
        ∙ stream-append ds (f c ∷ [])
        ∙ ap (λ o. stream ds ++ o)
            (stream_one (f c) ∙ octets_as-fd c c.kind none ∙ sym (stream_one c))
        ∙ sym (stream-append ds (c ∷ []))
        ∙ ap stream (sym chain) in
      (
        record {
          cache = record {
            cached = q.cache.cached;
            counted = q.cache.counted;
            bounded = q.cache.bounded;
          };
          chunks = rw chain' (All-append IsChunk ds (f c ∷ []) dsk (k', tt));
          balance = omega (arith, q.balance, ap length same);
        },
        same,
      )

  Opened-closed :
      (cq cq1 : Chunkqueue) (fd : ℕ)
      → stream (closed cq fd).first ≡ stream cq.first
      → Opened disk (closed cq fd) cq1
      → Opened disk cq cq1
  unfolding written_bytes
  Opened-closed cq cq1 fd same o = record {
    front = o.front;
    end = o.end;
    chain = o.chain;
    in_file = o.in_file;
    unsent = o.unsent;
    queue = o.queue;
    same = o.same ∙ same;
    calls = close_fd fd ∷ o.calls;
    calls_are = o.calls_are ∙ append_assoc cq.calls (close_fd fd ∷ []) o.calls;
    no_bytes = o.no_bytes;
    same_dirs = o.same_dirs;
    same_idx = o.same_idx;
  }

module _ (h : Allocator) (ample : (n : ℕ) → h.grants n ≡ true) (disk : Disk) where
  -- A file is open after the choice.
  abbrev Opens : Chunkqueue → Chunkqueue × Choice → Type 0
  Opens cq r =
      (cq1 : Chunkqueue) × (fd : ℕ) × (open_last h disk r.0 r.1 ≡ ok (cq1, some fd))
      × Opened disk cq cq1

  choose_fd-Opens :
      (cq : Chunkqueue) (ds : List Chunk) (c : Chunk) (f : Option ℕ)
      → IsDisk disk
      → HasPlace cq.tempdirs cq.tempdir_idx
      → IsQueue cq
      → cq.first ≡ ds ++ (c ∷ [])
      → c.kind ≡ file_chunk
      → Opens cq (choose_fd h disk cq c f)
  unfolding choose_fd close_file open_last
  choose_fd-Opens cq ds c none d place q chain file_there = new_file h ample disk cq d place q
  choose_fd-Opens cq ds c (some fd) d place q chain file_there =
      elim (Bool-cases (c.is_temp && c.offset == 0)) [
        | inr misfit ↦ rw misfit (new_file h ample disk cq d place q)
        | inl fits ↦ elim (Bool-cases (leb cq.upload_temp_file_size c.file_length)) [
          | inl large ↦
              let (q', same) = closed-IsQueue h disk cq fd ds c q chain in
              let (cq1, fd1, run, o) = new_file h ample disk (closed h disk cq fd) d place q' in
              (
                cq1,
                fd1,
                rw (fits, large, d.closes cq.calls fd) run,
                Opened-closed h disk cq cq1 fd same o,
              )
          | inr small ↦ (
            cq,
            fd,
            rw (fits, small) refl,
            record {
              front = ds;
              end = c;
              chain = chain;
              in_file = file_there;
              unsent = ground (arith, fits);
              queue = q;
              same = refl;
              calls = [];
              calls_are = sym (append-nil cq.calls);
              no_bytes = λ rest. refl;
              same_dirs = refl;
              same_idx = refl;
            },
          )
        ]
      ]

  pub choose_last-Opens :
      (cq : Chunkqueue)
      → IsDisk disk
      → HasPlace cq.tempdirs cq.tempdir_idx
      → IsQueue cq
      → Opens cq (choose_last h disk cq (last_chunk cq.first))
  unfolding choose_last choose_kind
  choose_last-Opens cq d place q = elim (last_cases cq.first) [
    | inl none_there ↦
        subst (λ lc. Opens cq (choose_last h disk cq lc))
          (sym (ap last_chunk none_there ∙ last_chunk-nil)) (new_file h ample disk cq d place q)
    | inr (ds, c, chain) ↦
        subst (λ lc. Opens cq (choose_last h disk cq lc))
          (sym (ap last_chunk chain ∙ last_chunk-append ds c))
          (elim (Kind-cases c.kind) [
            | inl mem_there ↦
                subst (λ k. Opens cq (choose_kind h disk cq c k)) (sym mem_there)
                  (new_file h ample disk cq d place q)
            | inr file_there ↦
                subst (λ k. Opens cq (choose_kind h disk cq c k)) (sym file_there)
                  (choose_fd-Opens cq ds c c.fd d place q chain file_there)
          ])
  ]
