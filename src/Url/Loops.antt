-- ===== src/Url/Loops.antt =====
-- The second loop of the URL decoder (src/buffer.c). At each round the block is the output so
-- far, a gap of bytes already read, and what is still to be read.
use lighttpd.Base.{
  ℕ, zero, suc, ◌+◌, ◌<◌, ◌≡◌, refl, ap, ◌∙◌, ◌≢◌, inl, inr, Bool, true, none, some, [], ◌∷◌, ◌++◌,
  append-nil, append_assoc, arith, ◌==◌, if◌then◌else◌, Option-cases, length, length-append, All,
}
use lighttpd.Memory.{ok, Bytes, load, store}
use lighttpd.Chars.{hex2int}
use lighttpd.Memory.Blocks.{store_at}
use lighttpd.Memory.Shift.{
  shift, length-shift, store_front, load_behind, load_next, load_next_but_one, length_step,
}
use lighttpd.Path.{read, step}
use lighttpd.Url.{printable, joined, decode_at, decode_loop}
use lighttpd.Url.Decode.{escape_value, plain_byte, decode, escape_at}

module _ (q : Bool) (out gap : Bytes) (c : ℕ) (src : ℕ) (at : src ≡ length out + length gap) where
  -- A byte that stands for itself, since what follows a `%` is no digit
  decode_at_short :
      (a : ℕ) (more : Bytes)
      → (hex2int a == 255) ≡ true
      → decode_at q (out ++ (gap ++ (c ∷ a ∷ more))) src (length out) c
        ≡ ok (out ++ (plain_byte q c ∷ (shift gap c ++ (a ∷ more))), 0)
  unfolding decode_at
  decode_at_short a more bad = ground (
    arith,
    store_front out gap c b' ' (a ∷ more),
    store_front out gap c b'%' (a ∷ more),
    store_front out gap c c (a ∷ more),
    load_next out gap c b'%' a more (src + 1) (omega (arith, at)),
  )

  store_again : (v w : ℕ) (X : Bytes) → store (out ++ (v ∷ X)) (length out) w ≡ ok (out ++ (w ∷ X))
  store_again v w X = store_at out X v w

  decode_at_long :
      (a b : ℕ) (more : Bytes)
      → decode_at q (out ++ (gap ++ (c ∷ a ∷ b ∷ more))) src (length out) c
        ≡ elim (if c == b'%' then escape_value a b else none) [
          | some v ↦ ok (out ++ (v ∷ (shift gap c ++ (a ∷ b ∷ more))), 2)
          | none ↦ ok (out ++ (plain_byte q c ∷ (shift gap c ++ (a ∷ b ∷ more))), 0)
        ]
  unfolding decode_at escape_value
  decode_at_long a b more = ground (
    arith,
    store_front out gap c b' ' (a ∷ b ∷ more),
    store_front out gap c b'%' (a ∷ b ∷ more),
    store_front out gap c c (a ∷ b ∷ more),
    load_next out gap c b'%' a (b ∷ more) (src + 1) (omega (arith, at)),
    load_next_but_one out gap c b'%' a b more (src + 2) (omega (arith, at)),
    store_again b'%' (printable (joined (hex2int a) (hex2int b))) (shift gap c ++ (a ∷ b ∷ more)),
  )

-- From a block, the loop writes `ds` behind `out` and leaves the block's length as it is.
pub record Decodes (q : Bool) (fuel : ℕ) (m : Bytes) (src : ℕ) (out ds : Bytes) : Type 0 where
  pub after : Bytes
  pub runs : decode_loop q fuel m src (length out) ≡ ok ((out ++ ds) ++ after, length (out ++ ds))
  pub keeps : length ((out ++ ds) ++ after) ≡ length m

Decodes-cons :
    (q : Bool) (fuel : ℕ) (m : Bytes) (src skip : ℕ) (out : Bytes) (c v : ℕ) (X ds : Bytes)
    → load m src ≡ ok c
    → c ≢ 0
    → decode_at q m src (length out) c ≡ ok (out ++ (v ∷ X), skip)
    → length (out ++ (v ∷ X)) ≡ length m
    → Decodes q fuel ((out ++ (v ∷ [])) ++ X) (src + skip + 1) (out ++ (v ∷ [])) ds
    → Decodes q (suc fuel) m src out (v ∷ ds)
unfolding decode_loop
Decodes-cons q fuel m src skip out c v X ds read ne step len d =
    let regroup : (out ++ (v ∷ [])) ++ ds ≡ out ++ (v ∷ ds) = append_assoc out (v ∷ []) ds in
    let regroup2 : (out ++ (v ∷ [])) ++ X ≡ out ++ (v ∷ X) = append_assoc out (v ∷ []) X in
    let next : length (out ++ (v ∷ [])) ≡ length out + 1 =
      omega (arith, length-append out (v ∷ [])) in
    record {
      after = d.after;
      runs = ground (arith, read, ne, step, d.runs, regroup, regroup2, next);
      keeps = rw (← regroup) (d.keeps ∙ ap length regroup2 ∙ len);
    }

module _ (q : Bool) (fuel : ℕ) (out gap tail : Bytes) (src : ℕ)
    (at : src ≡ length out + length gap) where
  -- One byte read, one written, and the rest by induction
  Decodes-plain :
      (c a : ℕ) (more ds : Bytes)
      → c ≢ 0
      → decode_at q (out ++ (gap ++ (c ∷ a ∷ more))) src (length out) c
        ≡ ok (out ++ (plain_byte q c ∷ (shift gap c ++ (a ∷ more))), 0)
      → Decodes q fuel
          ((out ++ (plain_byte q c ∷ [])) ++ (shift gap c ++ (a ∷ more)))
          (src + 1)
          (out ++ (plain_byte q c ∷ []))
          ds
      → Decodes q (suc fuel) (out ++ (gap ++ (c ∷ a ∷ more))) src out (plain_byte q c ∷ ds)
  Decodes-plain c a more ds ne step d =
      let one : src + 0 + 1 ≡ src + 1 = omega arith in
      Decodes-cons q fuel (out ++ (gap ++ (c ∷ a ∷ more))) src 0 out c (plain_byte q c)
        (shift gap c ++ (a ∷ more)) ds (load_behind out gap c (a ∷ more) src at) ne step
        (length_step out gap c (plain_byte q c) (a ∷ more)) (rw one d)

  Decodes-escape :
      (c a b v : ℕ) (more ds : Bytes)
      → c ≢ 0
      → escape_at c a b ≡ some v
      → Decodes q fuel
          ((out ++ (v ∷ [])) ++ ((shift gap c ++ (a ∷ b ∷ [])) ++ more))
          (src + 3)
          (out ++ (v ∷ []))
          ds
      → Decodes q (suc fuel) (out ++ (gap ++ (c ∷ a ∷ b ∷ more))) src out (v ∷ ds)
  Decodes-escape c a b v more ds ne e d =
      let three : src + 2 + 1 ≡ src + 3 = omega arith in
      let d' = rw (append_assoc (shift gap c) (a ∷ b ∷ []) more) at d in
      Decodes-cons q fuel (out ++ (gap ++ (c ∷ a ∷ b ∷ more))) src 2 out c v
        (shift gap c ++ (a ∷ b ∷ more)) ds (load_behind out gap c (a ∷ b ∷ more) src at) ne
        (decode_at_long q out gap c src at a b more ∙ rw e) (length_step out gap c v (a ∷ b ∷ more))
        (rw three d')

  next_at : (c v : ℕ) → src + 1 ≡ length (out ++ (v ∷ [])) + length (shift gap c)
  next_at c v = omega (arith, at, length-append out (v ∷ []), length-shift gap c)

  escape_next_at :
      (c a b v : ℕ) → src + 3 ≡ length (out ++ (v ∷ [])) + length (shift gap c ++ (a ∷ b ∷ []))
  escape_next_at c a b v = omega (
    arith,
    at,
    length-append out (v ∷ []),
    length-shift gap c,
    length-append (shift gap c) (a ∷ b ∷ []),
  )

escape_at-nul : (c a : ℕ) → escape_at c a 0 ≡ none
unfolding escape_value hex2int
escape_at-nul c a = ground arith

-- Whatever stands in the gap, the loop decodes a string of nonzero bytes and stops at its end.
pub decode_loop_lem :
    (q : Bool) (s : Bytes) (fuel : ℕ) (out gap tail : Bytes) (src : ℕ)
    → All (λ c. c ≢ 0) s
    → length s < fuel
    → src ≡ length out + length gap
    → Decodes q fuel (out ++ (gap ++ (s ++ (0 ∷ tail)))) src out (decode q s)
unfolding decode
decode_loop_lem q s zero out gap tail src h lt at = absurd (omega arith)
decode_loop_lem q [] (suc fuel) out gap tail src h lt at = record {
  after = gap ++ (0 ∷ tail);
  runs = unfold decode_loop in rw append-nil (ground (arith, load_behind out gap 0 tail src at));
  keeps = rw append-nil refl;
}
decode_loop_lem q (c ∷ []) (suc fuel) out gap tail src (ne, _) lt at =
    Decodes-plain q fuel out gap tail src at c 0 tail [] ne
      (decode_at_short q out gap c src at 0 tail (unfold hex2int in refl))
      (decode_loop_lem q [] fuel (out ++ (plain_byte q c ∷ [])) (shift gap c) tail (src + 1) tt
        (omega arith) (next_at q fuel out gap tail src at c (plain_byte q c)))
decode_loop_lem q (c ∷ a ∷ []) (suc fuel) out gap tail src (ne, h) lt at =
    Decodes-plain q fuel out gap tail src at c a (0 ∷ tail) (plain_byte q a ∷ []) ne
      (decode_at_long q out gap c src at a 0 tail ∙ rw (escape_at-nul c a))
      (decode_loop_lem q (a ∷ []) fuel (out ++ (plain_byte q c ∷ [])) (shift gap c) tail (src + 1) h
        (omega arith) (next_at q fuel out gap tail src at c (plain_byte q c)))
decode_loop_lem q (c ∷ a ∷ b ∷ s) (suc fuel) out gap tail src (ne, h) lt at =
    elim (Option-cases (escape_at c a b)) [
      | inl e ↦
          rw (e, decode)
            (Decodes-plain q fuel out gap tail src at c a (b ∷ (s ++ (0 ∷ tail)))
              (decode q (a ∷ b ∷ s)) ne
              (decode_at_long q out gap c src at a b (s ++ (0 ∷ tail)) ∙ rw e)
              (decode_loop_lem q (a ∷ b ∷ s) fuel (out ++ (plain_byte q c ∷ [])) (shift gap c) tail
                (src + 1) h (omega arith) (next_at q fuel out gap tail src at c (plain_byte q c))))
      | inr (v, e) ↦
          rw (e, decode)
            (Decodes-escape q fuel out gap tail src at c a b v (s ++ (0 ∷ tail)) (decode q s) ne e (
              decode_loop_lem q s fuel (out ++ (v ∷ [])) (shift gap c ++ (a ∷ b ∷ [])) tail
                (src + 3) (h.1.1) (omega arith)
                (escape_next_at q fuel out gap tail src at c a b v)))
    ]
