-- ===== src/Chunk/Reset.antt =====
-- `chunk_reset` (src/chunk.c), and what a chunk of the cache is.
use lighttpd.Base.{◌≡◌, refl, inl, false, none, [], arith}
use lighttpd.Memory.{ok}
use lighttpd.Buffer.{init}
use lighttpd.Buffer.Holds.{IsSized, Stores}
use lighttpd.Buffer.Resize.{reset_lem}
use lighttpd.Chunk.{mem_chunk, Chunk, chunk_init, chunk_reset}
use lighttpd.Splay.{sized}

-- As `chunk_init` makes it, but for blocks that are kept
pub record IsReset (c : Chunk) : Type 0 where
  pub kind_is : c.kind ≡ mem_chunk
  pub no_text : Stores c.mem []
  pub no_name : Stores c.file_name []
  pub start_is : c.file_start ≡ 0
  pub length_is : c.file_length ≡ 0
  pub no_fd : c.fd ≡ none
  pub not_mapped : c.mapped ≡ false
  pub not_temp : c.is_temp ≡ false
  pub offset_is : c.offset ≡ 0

pub chunk_init-IsReset : IsReset chunk_init
chunk_init-IsReset =
    let empty : IsSized init = record { size_is = refl; in_range = omega arith } in
    record {
      kind_is = refl;
      no_text = inl (empty, refl, refl);
      no_name = inl (empty, refl, refl);
      start_is = refl;
      length_is = refl;
      no_fd = refl;
      not_mapped = refl;
      not_temp = refl;
      offset_is = refl;
    }

pub chunk_reset_lem :
    (c : Chunk)
    → IsSized c.mem
    → IsSized c.file_name
    → (c' : Chunk) × (chunk_reset c ≡ ok c') × IsReset c'
unfolding chunk_reset
chunk_reset_lem c m n =
    let (m', run, sized, used, small, smaller) = reset_lem c.mem m in
    let (n', run2, sized2, used2, small2, smaller2) = reset_lem c.file_name n in
    (
      record chunk_init { mem = m'; file_name = n' },
      rw (run, run2) refl,
      record {
        kind_is = refl;
        no_text = inl (sized, used, refl);
        no_name = inl (sized2, used2, refl);
        start_is = refl;
        length_is = refl;
        no_fd = refl;
        not_mapped = refl;
        not_temp = refl;
        offset_is = refl;
      },
    )
