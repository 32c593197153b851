-- ===== src/Path/Clean.antt =====
-- What a caller of `buffer_path_simplify` (src/buffer.c) may rely on.
use lighttpd.Base.{ℕ, ◌+◌, ◌<◌, ◌≡◌, true, ◌∷◌, length}
use lighttpd.Memory.{ok, Bytes, size_mod, Allocator}
use lighttpd.Buffer.{Buffer}
use lighttpd.Buffer.Holds.{IsSized, Holds, Stores}
use lighttpd.Path.{path_simplify}
use lighttpd.Path.Spec.{Stack, render, strip_spaces, components, IsClean, components-IsClean}
use lighttpd.Path.Whole.{path_simplify_lem}
use lighttpd.Url.Decode.{until_nul}

module _ (h : Allocator) (ample : (n : ℕ) → h.grants n ≡ true) where
  -- With memory granted, a target whose size field is that of its block, and a source that stores
  -- a nonempty string of a length that fits a `size_t` with two bytes more, `buffer_path_simplify`
  -- returns, and the target then holds a slash before each of a sequence of components, none of
  -- which is `.` or `..`, contains a slash, or is empty before the last.
  pub path_simplify-IsClean :
      {dest src : Buffer} (c : ℕ) (s : Bytes)
      → IsSized dest
      → Stores src (c ∷ s)
      → length (c ∷ s) + 2 < size_mod
      → (st : Stack) × (b' : Buffer) × (path_simplify h dest src ≡ ok b')
        × Holds b' (render st)
        × IsClean st
  path_simplify-IsClean c s z k q =
      let (b', run, done) = path_simplify_lem h ample (c ∷ s) z k q in
      let t = until_nul (c ∷ s) in
      (components (strip_spaces t), b', run, done, components-IsClean t)
