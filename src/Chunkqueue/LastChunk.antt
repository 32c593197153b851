-- ===== src/Chunkqueue/LastChunk.antt =====
-- The last chunk of a queue (src/chunk.c), and text that is added to it.
use lighttpd.Base.{
  ◌+◌, ◌≤◌, ◌≡◌, refl, sym, ap, ◌∙◌, ◌⊎◌, inl, inr, none, some, List, [], ◌∷◌, ◌++◌, append_assoc,
  arith, length, drop, length-append, All,
}
use lighttpd.Memory.{Bytes}
use lighttpd.Buffer.{Buffer}
use lighttpd.Buffer.Holds.{Stores, string_length-Stores, string_of, string_of-Stores}
use lighttpd.Chunk.{mem_chunk, Chunk, Chunkqueue, whole_length}
use lighttpd.Chunk.Octets.{
  mem_octets, octets_as, octets, stream, IsChunk, IsMem, length-mem_octets, mem_octets-append,
  stream-append, stream_one, drop_within,
}
use lighttpd.Chunkqueue.Cache.{IsQueue, All-append, Gains}
use lighttpd.Chunkqueue.Transfer.{last_chunk, set_last}

pub last_chunk-nil : last_chunk [] ≡ none
unfolding last_chunk
last_chunk-nil = refl

pub last_chunk-append : (cs : List Chunk) (c : Chunk) → last_chunk (cs ++ (c ∷ [])) ≡ some c
unfolding last_chunk
last_chunk-append [] c = refl
last_chunk-append (d ∷ []) c = refl
last_chunk-append (d ∷ e ∷ cs) c = last_chunk-append (e ∷ cs) c

pub set_last-append :
    (cs : List Chunk) (c : Chunk) (b : Buffer)
    → set_last (cs ++ (c ∷ [])) b ≡ cs ++ (record c { mem = b } ∷ [])
unfolding set_last
set_last-append [] c b = refl
set_last-append (d ∷ []) c b = refl
set_last-append (d ∷ e ∷ cs) c b = ap (◌∷◌ d) (set_last-append (e ∷ cs) c b)

pub set_last-IsMem : (cs : List Chunk) (b : Buffer) → All IsMem cs → All IsMem (set_last cs b)
unfolding set_last
set_last-IsMem [] b h = tt
set_last-IsMem (c ∷ []) b h = h
set_last-IsMem (c ∷ d ∷ cs) b h = (h.0, set_last-IsMem (d ∷ cs) b (h.1))

-- A chain is empty, or it has a last chunk.
pub last_cases :
    (cs : List Chunk) → (cs ≡ []) ⊎ ((ds : List Chunk) × (c : Chunk) × (cs ≡ ds ++ (c ∷ [])))
last_cases [] = inl refl
last_cases (c ∷ cs) = elim (last_cases cs) [
  | inl e ↦ inr ([], c, ap (◌∷◌ c) e)
  | inr (ds, d, e) ↦ inr (c ∷ ds, d, ap (◌∷◌ c) e)
]

pub All-split :
    (cs : List Chunk) (c : Chunk) → All IsChunk (cs ++ (c ∷ [])) → All IsChunk cs × IsChunk c
All-split [] c h = (tt, h.0)
All-split (d ∷ cs) c h = let (u, v) = All-split cs c (h.1) in ((h.0, u), v)

pub octets-mem :
    (c : Chunk) → c.kind ≡ mem_chunk → octets c ≡ mem_octets (drop c.offset (string_of c.mem))
unfolding octets_as
octets-mem c e = rw e refl

-- The last chunk with more text in its buffer
grown_chunk :
    (c : Chunk) (b : Buffer) (t : Bytes)
    → c.kind ≡ mem_chunk
    → (k : IsChunk c) → Stores b (k.text ++ t)
    → IsChunk (record c { mem = b }) × (octets (record c { mem = b }) ≡ octets c ++ mem_octets t)
grown_chunk c b t e k d =
    let short : c.offset ≤ length k.text =
      unfold whole_length in omega (arith, rw e at k.within, string_length-Stores k.stored) in
    (
      record {
        text = k.text ++ t;
        stored = d;
        name = k.name;
        named = k.named;
        within = rw e (
            unfold whole_length in
            omega (arith, short, string_length-Stores d, length-append k.text t));
      },
      octets-mem (record c { mem = b }) e
          ∙ ap (λ s. mem_octets (drop c.offset s)) (string_of-Stores d)
          ∙ ap mem_octets (drop_within c.offset k.text t short)
          ∙ mem_octets-append (drop c.offset k.text) t
          ∙ ap (λ s. mem_octets (drop c.offset s) ++ mem_octets t) (sym (string_of-Stores k.stored))
          ∙ ap (λ o. o ++ mem_octets t) (sym (octets-mem c e)),
    )

-- Another buffer in the last chunk, with the same text and more
pub replaced_last :
    (cq : Chunkqueue) (ds : List Chunk) (c : Chunk) (b : Buffer) (s t : Bytes)
    → IsQueue cq
    → cq.first ≡ ds ++ (c ∷ [])
    → c.kind ≡ mem_chunk
    → Stores c.mem s
    → Stores b (s ++ t)
    → let cq' : Chunkqueue = record cq {
      first = set_last cq.first b;
      bytes_in = cq.bytes_in + length t;
    } in
      Gains cq (mem_octets t) cq' × (cq'.first ≡ ds ++ (record c { mem = b } ∷ []))
replaced_last cq ds c b s t q chain e old new =
    let (dsk, k) = All-split ds c (rw chain at q.chunks) in
    let text : k.text ≡ s = sym (string_of-Stores k.stored) ∙ string_of-Stores old in
    let (d, o) = grown_chunk c b t e k (rw text new) in
    let chain' = ap (λ cs. set_last cs b) chain ∙ set_last-append ds c b in
    let grown : stream (set_last cq.first b) ≡ stream cq.first ++ mem_octets t =
      ap stream chain'
      ∙ stream-append ds (record c { mem = b } ∷ [])
      ∙ ap (λ u. stream ds ++ u) (stream_one (record c { mem = b }) ∙ o)
      ∙ sym (append_assoc (stream ds) (octets c) (mem_octets t))
      ∙ ap (λ u. stream ds ++ u ++ mem_octets t) (sym (stream_one c))
      ∙ ap (λ u. u ++ mem_octets t) (sym (stream-append ds (c ∷ [])) ∙ ap stream (sym chain)) in
    (
      (
        record {
          cache = record {
            cached = q.cache.cached;
            counted = q.cache.counted;
            bounded = q.cache.bounded;
          };
          chunks = rw chain' (All-append IsChunk ds (record c { mem = b } ∷ []) dsk (d, tt));
          balance = omega (
            arith,
            q.balance,
            ap length grown,
            length-append (stream cq.first) (mem_octets t),
            length-mem_octets t,
          );
        },
        grown,
      ),
      chain',
    )
