-- ===== src/Case/Convert.antt =====
-- `buffer_to_lower` and `buffer_to_upper` (src/buffer.c) on a buffer that holds a string.
use mathlib.Core.Path.{subst}
use lighttpd.Base.{
  ℕ, suc, ◌+◌, ◌-◌, ◌≡◌, refl, sym, ap, true, not, ◌&&◌, [], ◌∷◌, ◌++◌, arith, ltb, leb, ◌==◌,
  if◌then◌else◌, ==→eq, length, all,
}
use lighttpd.Memory.{ok, Bytes}
use lighttpd.Buffer.{Buffer}
use lighttpd.Buffer.Holds.{Holds}
use lighttpd.Case.{is_upper, lowered, raised, change_each, to_lower, to_upper}
use lighttpd.Case.Compare.{map_bytes}
use lighttpd.Chars.Table.{passes, on_bytes, of_bytes}

change_each_lem :
    (f : ℕ → ℕ) (s rest : Bytes)
    → f 0 ≡ 0
    → change_each f (suc (length s)) (s ++ (0 ∷ rest)) ≡ ok (map_bytes f s ++ (0 ∷ rest))
unfolding change_each map_bytes
change_each_lem f [] rest z = rw z refl
change_each_lem f (c ∷ s) rest z = rw (change_each_lem f s rest z) refl

length-map_bytes : (f : ℕ → ℕ) (s : Bytes) → length (map_bytes f s) ≡ length s
unfolding map_bytes
length-map_bytes f [] = refl
length-map_bytes f (c ∷ s) = ap suc (length-map_bytes f s)

lowered_table : on_bytes (λ c. not (is_upper (lowered c))) ≡ true
unfolding passes lowered
lowered_table = refl

-- The letter of the other case
abbrev pub lower_case : ℕ → ℕ
lower_case c = if leb b'A' c && leb c b'Z' then c + (b'a' - b'A') else c

lower_case_table : on_bytes (λ c. lowered c == lower_case c) ≡ true
unfolding passes lowered
lower_case_table = refl

map_bytes-lower_case :
    (s : Bytes) → all (λ c. ltb c 256) s ≡ true → map_bytes lowered s ≡ map_bytes lower_case s
unfolding map_bytes
map_bytes-lower_case [] h = refl
map_bytes-lower_case (c ∷ s) h =
    let same =
      ==→eq (lowered c) (lower_case c)
        (of_bytes (λ c. lowered c == lower_case c) lower_case_table c (ground arith)) in
    rw (same, map_bytes-lower_case s (ground arith)) refl

raised_table : on_bytes (λ c. raised c == c) ≡ true
unfolding passes raised
raised_table = refl

no_upper :
    (s : Bytes)
    → all (λ c. ltb c 256) s ≡ true
    → all (λ c. not (is_upper c)) (map_bytes lowered s) ≡ true
unfolding map_bytes
no_upper [] h = refl
no_upper (c ∷ s) h = ground (arith, of_bytes _ lowered_table c (ground arith), no_upper s)

map_bytes-raised : (s : Bytes) → all (λ c. ltb c 256) s ≡ true → map_bytes raised s ≡ s
unfolding map_bytes
map_bytes-raised [] h = refl
map_bytes-raised (c ∷ s) h =
    let same = ==→eq (raised c) c (of_bytes _ raised_table c (ground arith)) in
    rw (same, map_bytes-raised s (ground arith)) refl

-- On a buffer that holds a string of bytes, `buffer_to_lower` returns, and the buffer then holds
-- the string with `a` to `z` in place of `A` to `Z` and its other bytes unchanged, which has no
-- upper-case letter.
pub to_lower_lem :
    {b : Buffer} (s : Bytes)
    → Holds b s
    → all (λ c. ltb c 256) s ≡ true
    → (b' : Buffer) × (to_lower b ≡ ok b')
      × Holds b' (map_bytes lower_case s)
      × (all (λ c. not (is_upper c)) (map_bytes lower_case s) ≡ true)
unfolding to_lower
to_lower_lem {b} s k h =
    let n = length-map_bytes lowered s in
    let used : b.used ≡ suc (length s) = omega (arith, k.used_is) in
    let run = change_each_lem lowered s k.rest (unfold lowered in refl) in
    (
      record b { ptr = map_bytes lowered s ++ (0 ∷ k.rest) },
      rw (k.layout, used, run) refl,
      subst (Holds _) (map_bytes-lower_case s h) (record {
        rest = k.rest;
        layout = refl;
        used_is = omega (arith, n, k.used_is);
        size_is = omega (arith, n, k.size_is);
        in_range = k.in_range;
      }),
      subst (λ u. all (λ c. not (is_upper c)) u ≡ true) (map_bytes-lower_case s h) (no_upper s h),
    )

-- On a buffer that holds a string of bytes, `buffer_to_upper` returns, and changes neither the
-- block nor the string.
pub to_upper-unchanged :
    {b : Buffer} (s : Bytes)
    → Holds b s
    → all (λ c. ltb c 256) s ≡ true
    → (b' : Buffer) × (to_upper b ≡ ok b') × (b'.ptr ≡ b.ptr) × Holds b' s
unfolding to_upper
to_upper-unchanged {b} s k h =
    let used : b.used ≡ suc (length s) = omega (arith, k.used_is) in
    let run = change_each_lem raised s k.rest (unfold raised in refl) in
    let same = map_bytes-raised s h in
    (
      record b { ptr = s ++ (0 ∷ k.rest) },
      rw (k.layout, used, run, same) refl,
      sym k.layout,
      record {
        rest = k.rest;
        layout = refl;
        used_is = k.used_is;
        size_is = k.size_is;
        in_range = k.in_range;
      },
    )
