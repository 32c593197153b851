-- ===== src/Path.antt =====
-- `buffer_path_simplify` of src/buffer.c, on offsets into the blocks: `start` is 0. The case
-- `src == dest` is kept apart, since there the code reads the block that it writes.
-- The part for Windows (`__WIN32`, `__CYGWIN__`) is not modelled.
pub mod Spec
pub mod Tape
pub mod Back
pub mod Loop
pub mod Whole
pub mod Clean
use lighttpd.Base.{ℕ, zero, suc, ◌+◌, ◌-◌, ◌&&◌, ◌||◌, Option, none, some, ltb, ◌==◌, if◌then◌else◌}
use lighttpd.Memory.{Outcome, ok, fault, ◌>>=◌, ◌>>◌, force_assert, Bytes, Allocator, load, store}
use lighttpd.Buffer.{
  Buffer, string_length, string_is_empty, string_prepare_copy, string_prepare_append,
  string_set_length,
}

-- The block that `walk` points into: that of `dest`, or another
abbrev pub Source : Type 0
Source = Option Bytes

unfoldable pub read : Source → Bytes → ℕ → Outcome ℕ
read none m i = load m i
read (some s) m i = load s i

-- `while (*walk == ' ') walk++`; the fuel is `src->used`
unfoldable pub skip_spaces : ℕ → Source → Bytes → ℕ → Outcome ℕ
skip_spaces zero src m walk = fault
skip_spaces (suc fuel) src m walk = do
  c ← read src m walk
  let rest = skip_spaces fuel src m (walk + 1)
  if c == b' ' then rest else ok walk

-- `while (out > start && *out != '/') out--`
unfoldable pub walk_back : Bytes → ℕ → Outcome ℕ
walk_back m zero = ok 0
walk_back m (suc out) = do
  c ← load m (suc out)
  let rest = walk_back m out
  if c == b'/' then ok (suc out) else rest

-- The variables of the loop
pub record Walk : Type 0 where
  pub block : Bytes
  pub walk : ℕ
  pub out : ℕ
  pub slash : ℕ
  pub c : ℕ
  pub pre1 : ℕ
  pub pre2 : ℕ

-- Where `out` goes at the end of a component: back over it, over the one before it too, or nowhere
unfoldable pub resolve : Walk → Outcome ℕ
resolve w =
    if w.out - w.slash == 3 && (w.pre2 == b'.' && w.pre1 == b'.')
    then (do
      out ← if ltb 0 w.slash then walk_back w.block (w.slash - 1) else ok w.slash
      ok (if w.c == 0 then out + 1 else out))
    else if w.out - w.slash == 1 || (w.pre2 == b'/' && w.pre1 == b'.')
    then ok (if w.c == 0 then w.slash + 1 else w.slash)
    else ok w.out

-- One round of the main loop
unfoldable pub step : Source → Walk → Outcome Walk
step src w = do
  c ← read src w.block w.walk
  m ← store w.block w.out w.c
  let w' : Walk = record {
    block = m;
    walk = w.walk + 1;
    out = w.out + 1;
    slash = w.slash;
    c = c;
    pre1 = w.c;
    pre2 = w.pre1;
  }
  if c == b'/' || c == 0
      then (resolve w' >>= λ out. ok (record w' { out = out; slash = out }))
      else ok w'

unfoldable pub loop : ℕ → Source → Walk → Outcome Walk
loop zero src w = fault
loop (suc fuel) src w =
    let rest = step src w >>= λ w'. loop fuel src w' in if w.c == 0 then ok w else rest

-- From the first byte that is no space
unfoldable pub simplify_block : ℕ → Source → Bytes → Outcome Walk
simplify_block fuel src m = do
  walk ← skip_spaces fuel src m 0
  c ← read src m walk
  let at_slash : Walk = record {
    block = m;
    walk = walk + 1;
    out = 0;
    slash = 0;
    c = c;
    pre1 = 0;
    pre2 = 0;
  }
  let supplied : Bytes → Walk =
      λ m'. record { block = m'; walk = walk + 1; out = 1; slash = 0; c = c; pre1 = b'/'; pre2 = 0 }
  if c == b'/'
      then loop fuel src at_slash
      else (do m' ← store m 0 b'/'; loop fuel src (supplied m'))

-- `buffer_path_simplify(dest, src)` for two buffers: the new `dest`
unfoldable pub path_simplify : Allocator → Buffer → Buffer → Outcome Buffer
path_simplify h dest src =
    if string_is_empty src then (string_prepare_copy h dest 0 >>= λ r. ok (r.0)) else do
      last ← load src.ptr (src.used - 1)
      force_assert (last == 0)
      (dest', _) ← string_prepare_copy h dest (string_length src + 1)
      w ← simplify_block src.used (some src.ptr) dest'.ptr
      string_set_length h (record dest' { ptr = w.block }) w.out

-- `buffer_path_simplify(b, b)`
unfoldable pub path_simplify_in_place : Allocator → Buffer → Outcome Buffer
path_simplify_in_place h b =
    if string_is_empty b then (string_prepare_copy h b 0 >>= λ r. ok (r.0)) else do
      last ← load b.ptr (b.used - 1)
      force_assert (last == 0)
      (b', _) ← string_prepare_append h b 1
      w ← simplify_block b'.used none b'.ptr
      string_set_length h (record b' { ptr = w.block }) w.out
