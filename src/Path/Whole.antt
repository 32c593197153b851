-- ===== src/Path/Whole.antt =====
-- The whole of `buffer_path_simplify`, for two buffers and in place.
use lighttpd.Base.{
  ℕ, zero, suc, ◌+◌, ◌≤◌, ◌<◌, ◌≡◌, refl, sym, ap, ◌∙◌, ◌≢◌, inl, inr, true, none, some, [], ◌∷◌,
  ◌++◌, append_assoc, arith, ◌==◌, if◌then◌else◌, ==→eq, Bool-cases, length, length-append,
  take-length, All,
}
use lighttpd.Memory.{ok, Bytes, size_mod, Allocator}
use lighttpd.Buffer.{Buffer, string_set_length}
use lighttpd.Buffer.Holds.{
  IsSized, Holds, Stores, Holds-IsSized, Stores-IsSized, string_length-Stores,
  string_is_empty-Stores, load_terminator,
}
use lighttpd.Buffer.Resize.{string_set_length_lem}
use lighttpd.Buffer.Room.{string_prepare_copy_lem, string_prepare_append_lem}
use lighttpd.Memory.Blocks.{load_at}
use lighttpd.Memory.Shift.{load_behind}
use lighttpd.Path.{
  Source, read, skip_spaces, Walk, loop, simplify_block, path_simplify, path_simplify_in_place,
}
use lighttpd.Path.Back.{none_yet, only_one, close_prefix, close_last_prefix}
use lighttpd.Path.Loop.{loop_lem}
use lighttpd.Path.Spec.{
  Stack, is_dot, is_dot_dot, close, close_last, walk_components, render, length-render-nil,
  strip_spaces, components, simplified,
}
use lighttpd.Path.Tape.{Tape, Tape-Moves, Tape-Ending}
use lighttpd.Url.Decode.{until_nul, All-until_nul, until_nul-split}
use lighttpd.Url.InPlace.{length-until_nul}

Tape-skip :
    (src : Source) (m X : Bytes) (walk c : ℕ) (rest : Bytes)
    → Tape src m X walk (c ∷ rest)
    → (read src m walk ≡ ok c) × Tape src m X (walk + 1) rest
unfolding read
Tape-skip none m X walk c rest (gap, tail, e, at) = (
  rw e (load_behind X gap c (rest ++ (0 ∷ tail)) walk at),
  (
    gap ++ (c ∷ []),
    tail,
    e ∙ ap (λ (u : Bytes). X ++ u) (sym (append_assoc gap (c ∷ []) (rest ++ (0 ∷ tail)))),
    omega (arith, at, length-append gap (c ∷ [])),
  ),
)
Tape-skip (some s) m X walk c rest (junk, before, tail, e, es, at, room) = (
  rw (es, at) (load_at before (rest ++ (0 ∷ tail)) c),
  (
    junk,
    before ++ (c ∷ []),
    tail,
    e,
    es ∙ sym (append_assoc before (c ∷ []) (rest ++ (0 ∷ tail))),
    omega (arith, at, length-append before (c ∷ [])),
    omega arith,
  ),
)

skip_step :
    (fuel : ℕ) (src : Source) (m : Bytes) (walk c : ℕ)
    → read src m walk ≡ ok c
    → skip_spaces (suc fuel) src m walk
      ≡ (if c == b' ' then skip_spaces fuel src m (walk + 1) else ok walk)
unfolding skip_spaces
skip_step fuel src m walk c e = rw e

skip_spaces_lem :
    (s : Bytes) (fuel : ℕ) (src : Source) (m : Bytes) (walk : ℕ)
    → length s < fuel
    → Tape src m [] walk s
    → (walk' : ℕ) × (skip_spaces fuel src m walk ≡ ok walk') × Tape src m [] walk' (strip_spaces s)
unfolding strip_spaces
skip_spaces_lem s zero src m walk lt tape = absurd (omega arith)
skip_spaces_lem [] (suc fuel) src m walk lt tape =
    (walk, skip_step fuel src m walk 0 (Tape-Ending src m [] walk 0 tape).reads, tape)
skip_spaces_lem (c ∷ s) (suc fuel) src m walk lt tape =
    let (reads, tape') = Tape-skip src m [] walk c s tape in
    let (walk', e, found) = skip_spaces_lem s fuel src m (walk + 1) (omega arith) tape' in
    let one = skip_step fuel src m walk c reads in
    elim (Bool-cases (c == b' ')) [
      | inl y ↦ (walk', one ∙ rw y e, rw y found)
      | inr n ↦ (walk, one ∙ rw n, rw n tape)
    ]

strip_spaces_nonzero : (s : Bytes) → All (λ c. c ≢ 0) s → All (λ c. c ≢ 0) (strip_spaces s)
unfolding strip_spaces
strip_spaces_nonzero [] h = tt
strip_spaces_nonzero (c ∷ s) h = elim (Bool-cases (c == b' ')) [
  | inl y ↦ rw y (strip_spaces_nonzero s h.1)
  | inr n ↦ rw n h
]

length-strip_spaces : (s : Bytes) → length (strip_spaces s) ≤ length s
unfolding strip_spaces
length-strip_spaces [] = omega arith
length-strip_spaces (c ∷ s) = ground (arith, length-strip_spaces s)

-- What the loops leave in the block: the stack rendered, and `out` behind it
record Leaves (fuel : ℕ) (src : Source) (m s : Bytes) : Type 0 where
  last : Walk
  junk : Bytes
  runs : simplify_block fuel src m ≡ ok last
  layout : last.block ≡ s ++ junk
  out_is : last.out ≡ length s
  keeps : length last.block ≡ length m

block_lem :
    (s : Bytes) (fuel : ℕ) (src : Source) (m : Bytes) (walk : ℕ)
    → skip_spaces fuel src m 0 ≡ ok walk
    → Tape src m [] walk s
    → All (λ c. c ≢ 0) s
    → length s < fuel
    → Leaves fuel src m (render (components s))
unfolding simplify_block components
block_lem s zero src m walk skipped tape h lt = absurd (omega arith)
block_lem [] (suc fuel) src m walk skipped tape h lt =
    let k = Tape-Ending src m [] walk b'/' tape in
    record {
      last = record {
        block = k.block;
        walk = walk + 1;
        out = 1;
        slash = 0;
        c = 0;
        pre1 = b'/';
        pre2 = 0;
      };
      junk = k.junk;
      runs = unfold loop in ground (arith, skipped, k.reads, k.stores);
      layout = unfold render walk_components close_last is_dot_dot is_dot in k.layout;
      out_is = unfold render walk_components close_last is_dot_dot is_dot in refl;
      keeps = k.keeps;
    }
block_lem (c ∷ s) fuel src m walk skipped tape h lt = elim (Bool-cases (c == b'/')) [
  | inl y ↦
      let (reads, tape') = Tape-skip src m [] walk c s tape in
      let a =
        loop_lem s fuel src m [] (walk + 1) [] [] c 0 0 (omega arith)
          (unfold render in ap (λ (x : ℕ). x ∷ []) (==→eq c b'/' y)) h.0 h.1 tape'
          (none_yet refl (==→eq c b'/' y)) refl refl in
      record {
        last = a.last;
        junk = a.junk;
        runs = ground (arith, skipped, reads, y, a.runs, length-render-nil);
        layout = rw y a.layout;
        out_is = rw y a.out_is;
        keeps = a.keeps;
      }
  | inr n ↦
      let k = Tape-Moves src m [] walk c s b'/' tape in
      let a =
        loop_lem s fuel src k.block (b'/' ∷ []) (walk + 1) [] (c ∷ []) c b'/' 0 (omega arith)
          (unfold render in refl) h.0 h.1 k.tape (only_one refl refl) (ground arith) refl in
      record {
        last = a.last;
        junk = a.junk;
        runs = ground (arith, skipped, k.reads, k.stores, n, a.runs, length-render-nil);
        layout = rw n a.layout;
        out_is = rw n a.out_is;
        keeps = a.keeps ∙ k.keeps;
      }
]

-- Simplifying adds at most the leading slash.
length-walk_components :
    (st : Stack) (t s : Bytes)
    → length (render (walk_components st t s)) ≤ length (render st) + 1 + length t + length s
unfolding walk_components
length-walk_components st t [] =
    let (Z, e) = close_last_prefix st t in
    omega (
      arith,
      ap length e,
      length-append (render st) (b'/' ∷ t),
      length-append (render (close_last st t)) Z,
    )
length-walk_components st t (c ∷ s) = elim (Bool-cases (c == b'/')) [
  | inl y ↦
      let (Z, e) = close_prefix st t in
      rw y (
        omega (
          arith,
          length-walk_components (close st t) [] s,
          ap length e,
          length-append (render st) (b'/' ∷ t),
          length-append (render (close st t)) Z,
        ))
  | inr n ↦
      rw n (omega (arith, length-walk_components st (t ++ (c ∷ [])) s, length-append t (c ∷ [])))
]

length-components : (s : Bytes) → length (render (components s)) ≤ length s + 1
unfolding components
length-components [] = omega (arith, length-walk_components [] [] [], length-render-nil)
length-components (c ∷ s) = elim (Bool-cases (c == b'/')) [
  | inl y ↦ rw y (omega (arith, length-walk_components [] [] s, length-render-nil))
  | inr n ↦ rw n (omega (arith, length-walk_components [] (c ∷ []) s, length-render-nil))
]

simplify_block_lem :
    (s : Bytes) (fuel : ℕ) (src : Source) (m : Bytes)
    → Tape src m [] 0 s
    → All (λ c. c ≢ 0) s
    → length s < fuel
    → Leaves fuel src m (simplified s)
simplify_block_lem s fuel src m tape h lt =
    let (walk, skipped, found) = skip_spaces_lem s fuel src m 0 lt tape in
    block_lem (strip_spaces s) fuel src m walk skipped found (strip_spaces_nonzero s h)
      (omega (arith, length-strip_spaces s))

-- What `buffer_path_simplify` makes of a string, which ends at its first zero byte
abbrev pub simplified_string : Bytes → Bytes
simplified_string [] = []
simplified_string (c ∷ s) = simplified (until_nul (c ∷ s))

length-simplified : (s : Bytes) → length (simplified (until_nul s)) ≤ length s + 1
length-simplified s = omega (
  arith,
  length-components (strip_spaces (until_nul s)),
  length-strip_spaces (until_nul s),
  length-until_nul s,
)

module _ (h : Allocator) (ample : (n : ℕ) → h.grants n ≡ true) where
  -- The last step cuts the block behind the result.
  cut_lem :
      (b : Buffer) (m r junk : Bytes) (n : ℕ)
      → IsSized b
      → length m ≡ length b.ptr
      → m ≡ r ++ junk
      → n ≡ length r
      → length r + 1 < size_mod
      → (b' : Buffer) × (string_set_length h (record b { ptr = m }) n ≡ ok b') × Holds b' r
  cut_lem b m r junk n z keeps layout at q =
      let (us, rest, e, l, b', run, k) =
        string_set_length_lem h ample (record b { ptr = m }) n
          (record { size_is = z.size_is ∙ sym keeps; in_range = z.in_range }) (omega (arith, at)) in
      let same : us ≡ r =
        e ∙ rw (at, layout, append_assoc r junk rest) (take-length r (junk ++ rest)) in
      (b', run, rw same at k)

  -- With memory granted, a target whose size field is that of its block, and a source that stores
  -- a string of a length that fits a `size_t` with two bytes more, `buffer_path_simplify` on two
  -- buffers returns, with no access outside a block. The target then holds the simplified path:
  -- the components of the string up to its first zero byte, resolved on a stack (nothing, for the
  -- empty string).
  pub path_simplify_lem :
      {dest src : Buffer} (s : Bytes)
      → IsSized dest
      → Stores src s
      → length s + 2 < size_mod
      → (b' : Buffer) × (path_simplify h dest src ≡ ok b') × Holds b' (simplified_string s)
  unfolding path_simplify
  path_simplify_lem {dest} {src} [] z k q =
      let (b', run, room) = string_prepare_copy_lem h ample dest 0 z (omega arith) in
      (b', ground (arith, string_is_empty-Stores {b = src} {s = []} k, run), room.holds)
  path_simplify_lem (c ∷ s) z (inl u) q = cc (u.2)
  path_simplify_lem {dest} {src} (c ∷ s) z (inr k) q =
      let t = until_nul (c ∷ s) in
      let (tail, split) = until_nul-split (c ∷ s) k.rest in
      let (d, run, room) =
        string_prepare_copy_lem h ample dest (length (c ∷ s) + 1) z (omega arith) in
      let lt = length-until_nul (c ∷ s) in
      let w =
        simplify_block_lem t src.used (some src.ptr) d.ptr
          (
            d.ptr,
            [],
            tail,
            refl,
            k.layout ∙ split,
            refl,
            omega (arith, lt, room.room, ap length room.holds.layout),
          )
          (All-until_nul (c ∷ s)) (omega (arith, lt, k.used_is)) in
      let (b', run2, done) =
        cut_lem d w.last.block (simplified t) w.junk w.last.out (Holds-IsSized room.holds) w.keeps
          w.layout w.out_is (omega (arith, length-simplified (c ∷ s))) in
      let n = string_length-Stores {b = src} {s = c ∷ s} (inr k) in
      let last = load_terminator k in
      (
        b',
        ground (
          arith,
          string_is_empty-Stores {b = src} {s = c ∷ s} (inr k),
          n,
          last,
          run,
          w.runs,
          run2,
        ),
        done,
      )

  -- With memory granted, and a buffer that stores a string of a length that fits a `size_t` with
  -- two bytes more, `buffer_path_simplify` with `src == dest` returns, and leaves the same path as
  -- with two buffers: no byte is overwritten before it has been read.
  pub path_simplify_in_place_lem :
      {b : Buffer} (s : Bytes)
      → Stores b s
      → length s + 2 < size_mod
      → (b' : Buffer) × (path_simplify_in_place h b ≡ ok b') × Holds b' (simplified_string s)
  unfolding path_simplify_in_place
  path_simplify_in_place_lem {b} [] k q =
      let (b', run, room) = string_prepare_copy_lem h ample b 0 (Stores-IsSized k) (omega arith) in
      (b', ground (arith, string_is_empty-Stores {b = b} {s = []} k, run), room.holds)
  path_simplify_in_place_lem (c ∷ s) (inl u) q = cc (u.2)
  path_simplify_in_place_lem {b} (c ∷ s) (inr k) q =
      let t = until_nul (c ∷ s) in
      let (d, run, room) = string_prepare_append_lem h ample (c ∷ s) 1 (inr k) (omega arith) in
      let (tail, split) = until_nul-split (c ∷ s) room.holds.rest in
      let lt = length-until_nul (c ∷ s) in
      let w =
        simplify_block_lem t d.used none d.ptr ([], tail, room.holds.layout ∙ split, omega arith)
          (All-until_nul (c ∷ s)) (omega (arith, lt, room.holds.used_is)) in
      let (b', run2, done) =
        cut_lem d w.last.block (simplified t) w.junk w.last.out (Holds-IsSized room.holds) w.keeps
          w.layout w.out_is (omega (arith, length-simplified (c ∷ s))) in
      let last = load_terminator k in
      (
        b',
        ground (arith, string_is_empty-Stores {b = b} {s = c ∷ s} (inr k), last, run, w.runs, run2),
        done,
      )
