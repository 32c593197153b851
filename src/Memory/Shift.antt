-- ===== src/Memory/Shift.antt =====
-- Rewriting a block from the front while it is read further behind: the bytes written, a gap of
-- bytes already read, and the bytes still to be read.
use lighttpd.Base.{ℕ, ◌+◌, ◌≡◌, refl, [], ◌∷◌, ◌++◌, append_assoc, arith, length, length-append}
use lighttpd.Memory.{ok, Bytes, load, store}
use lighttpd.Memory.Blocks.{load_at, store_at}

-- The gap after the byte `c` was read and one byte was written at its front
pub shift : Bytes → ℕ → Bytes
shift [] c = []
shift (g ∷ gap) c = gap ++ (c ∷ [])

pub length-shift : (gap : Bytes) (c : ℕ) → length (shift gap c) ≡ length gap
unfolding shift
length-shift [] c = refl
length-shift (g ∷ gap) c = omega (arith, length-append gap (c ∷ []))

pub store_front :
    (out gap : Bytes) (c v : ℕ) (more : Bytes)
    → store (out ++ (gap ++ (c ∷ more))) (length out) v ≡ ok (out ++ (v ∷ (shift gap c ++ more)))
unfolding shift
store_front out [] c v more = store_at out more c v
store_front out (g ∷ gap) c v more =
    rw (append_assoc gap (c ∷ []) more) (store_at out (gap ++ (c ∷ more)) g v)

pub load_behind :
    (out gap : Bytes) (c : ℕ) (more : Bytes) (i : ℕ)
    → i ≡ length out + length gap
    → load (out ++ (gap ++ (c ∷ more))) i ≡ ok c
load_behind out gap c more i e =
    let n : i ≡ length (out ++ gap) = omega (arith, e, length-append out gap) in
    rw (n, ← append_assoc out gap (c ∷ more)) (load_at (out ++ gap) more c)

-- Behind a byte just written
pub load_next :
    (out gap : Bytes) (c v a : ℕ) (more : Bytes) (i : ℕ)
    → i ≡ length out + length gap + 1
    → load (out ++ (v ∷ (shift gap c ++ (a ∷ more)))) i ≡ ok a
load_next out gap c v a more i e =
    let l = length-append out (v ∷ []) in
    rw (← append_assoc out (v ∷ []) (shift gap c ++ (a ∷ more))) (
      load_behind (out ++ (v ∷ [])) (shift gap c) a more i
        (omega (arith, e, l, length-shift gap c)))

pub load_next_but_one :
    (out gap : Bytes) (c v a b : ℕ) (more : Bytes) (i : ℕ)
    → i ≡ length out + length gap + 2
    → load (out ++ (v ∷ (shift gap c ++ (a ∷ b ∷ more)))) i ≡ ok b
load_next_but_one out gap c v a b more i e =
    let l = length-append out (v ∷ []) in
    let l2 = length-append (shift gap c) (a ∷ []) in
    rw
      (
        ← append_assoc out (v ∷ []) (shift gap c ++ (a ∷ b ∷ more)),
        ← append_assoc (shift gap c) (a ∷ []) (b ∷ more),
      )
      (load_behind (out ++ (v ∷ [])) (shift gap c ++ (a ∷ [])) b more i
        (omega (arith, e, l, l2, length-shift gap c)))

pub length_step :
    (out gap : Bytes) (c v : ℕ) (more : Bytes)
    → length (out ++ (v ∷ (shift gap c ++ more))) ≡ length (out ++ (gap ++ (c ∷ more)))
length_step out gap c v more = omega (
  arith,
  length-append out (v ∷ (shift gap c ++ more)),
  length-append out (gap ++ (c ∷ more)),
  length-append (shift gap c) more,
  length-append gap (c ∷ more),
  length-shift gap c,
)
