-- ===== src/Chunkqueue/Tempfile/Sequence.antt =====
-- Several strings to temporary files (src/chunk.c), one after the other.
use mathlib.Core.Path.{subst}
use lighttpd.Base.{
  ◌≡◌, refl, sym, ap, ◌∙◌, List, [], ◌∷◌, ◌++◌, append-nil, append_assoc, arith, take,
  length-append,
}
use lighttpd.Memory.{Bytes}
use lighttpd.Chunk.{Call, unlink, close_fd, unmap, make_temp, write_fd, Chunkqueue}
use lighttpd.Chunk.Octets.{stream}
use lighttpd.Chunkqueue.Cache.{All-append}
use lighttpd.Chunkqueue.Tempfile.{Written, wrote, write_failed, Disk}
use lighttpd.Chunkqueue.Tempfile.Loop.{IsInFile, Spilled}
use lighttpd.Chunkqueue.Tempfile.Open.{HasPlace, after_write, written_bytes}

after_write-append :
    (w : Written) (s t u : Bytes) → after_write w s (t ++ u) ≡ after_write w s t ++ u
after_write-append (wrote n) s t u = sym (append_assoc (take n s) t u)
after_write-append (write_failed e) s t u = refl

module _ (disk : Disk) where
  written_bytes-append :
      (past cs ds : List Call)
      → written_bytes disk past (cs ++ ds)
        ≡ written_bytes disk past cs ++ written_bytes disk (past ++ cs) ds
  unfolding written_bytes
  written_bytes-append past [] ds = ap (λ p. written_bytes disk p ds) (sym (append-nil past))
  written_bytes-append past (write_fd fd s ∷ cs) ds =
      ap (after_write (disk.write past fd s) s) (
        written_bytes-append (past ++ (write_fd fd s ∷ [])) cs ds
        ∙ ap (λ p. written_bytes disk (past ++ (write_fd fd s ∷ [])) cs ++ written_bytes disk p ds)
            (append_assoc past (write_fd fd s ∷ []) cs))
      ∙ after_write-append (disk.write past fd s) s _ _
  written_bytes-append past (unlink s ∷ cs) ds =
      written_bytes-append (past ++ (unlink s ∷ [])) cs ds
      ∙ ap (λ p. written_bytes disk (past ++ (unlink s ∷ [])) cs ++ written_bytes disk p ds)
          (append_assoc past (unlink s ∷ []) cs)
  written_bytes-append past (close_fd fd ∷ cs) ds =
      written_bytes-append (past ++ (close_fd fd ∷ [])) cs ds
      ∙ ap (λ p. written_bytes disk (past ++ (close_fd fd ∷ [])) cs ++ written_bytes disk p ds)
          (append_assoc past (close_fd fd ∷ []) cs)
  written_bytes-append past (unmap ∷ cs) ds =
      written_bytes-append (past ++ (unmap ∷ [])) cs ds
      ∙ ap (λ p. written_bytes disk (past ++ (unmap ∷ [])) cs ++ written_bytes disk p ds)
          (append_assoc past (unmap ∷ []) cs)
  written_bytes-append past (make_temp s ∷ cs) ds =
      written_bytes-append (past ++ (make_temp s ∷ [])) cs ds
      ∙ ap (λ p. written_bytes disk (past ++ (make_temp s ∷ [])) cs ++ written_bytes disk p ds)
          (append_assoc past (make_temp s ∷ []) cs)

  pub Spilled-trans :
      (a b c : Chunkqueue) (s t : Bytes)
      → Spilled disk a s b
      → Spilled disk b t c
      → Spilled disk a (s ++ t) c
  Spilled-trans a b c s t k r = record {
    queue = r.queue;
    new = k.new ++ r.new;
    grew = r.grew ∙ ap (λ u. u ++ r.new) k.grew ∙ append_assoc (stream a.first) k.new r.new;
    as_many = omega (arith, length-append k.new r.new, length-append s t, k.as_many, r.as_many);
    in_files = All-append IsInFile k.new r.new k.in_files r.in_files;
    calls = k.calls ++ r.calls;
    calls_are =
        r.calls_are ∙ ap (λ u. u ++ r.calls) k.calls_are ∙ append_assoc a.calls k.calls r.calls;
    bytes =
        written_bytes-append a.calls k.calls r.calls
        ∙ ap (λ u. u ++ written_bytes disk (a.calls ++ k.calls) r.calls) k.bytes
        ∙ ap (λ u. s ++ u) (ap (λ p. written_bytes disk p r.calls) (sym k.calls_are) ∙ r.bytes);
    same_dirs = r.same_dirs ∙ k.same_dirs;
    same_idx = r.same_idx ∙ k.same_idx;
  }

  pub HasPlace-Spilled :
      (a b : Chunkqueue) (s : Bytes)
      → Spilled disk a s b
      → HasPlace a.tempdirs a.tempdir_idx
      → HasPlace b.tempdirs b.tempdir_idx
  HasPlace-Spilled a b s k place =
      subst (λ ds. HasPlace ds b.tempdir_idx) (sym k.same_dirs)
        (subst (HasPlace a.tempdirs) (sym k.same_idx) place)
