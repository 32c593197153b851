-- ===== src/Path/Loop.antt =====
-- The main loop of `buffer_path_simplify` (src/buffer.c) and the components of the path.
use mathlib.Core.Path.{subst}
use lighttpd.Base.{
  ℕ, zero, suc, ◌+◌, ◌-◌, ◌<◌, ◌≡◌, refl, ap, ◌∙◌, ◌≢◌, inl, inr, true, ◌||◌, [], ◌∷◌, ◌++◌,
  append_assoc, arith, ltb, ◌==◌, if◌then◌else◌, ==→eq, Bool-cases, length, length-append, All, all,
}
use lighttpd.Memory.{ok, ◌>>=◌, Bytes, store}
use lighttpd.Path.{Source, read, walk_back, Walk, resolve, step, loop}
use lighttpd.Path.Back.{
  Ends, none_yet, Ends-concat, says_dot_dot_lem, says_dot_lem, walk_back_lem, close_prefix,
  close_last_prefix,
}
use lighttpd.Path.Spec.{
  Stack, slash_free, pop, close, close_last, walk_components, walk_components_slash,
  walk_components_byte, render, slash_free-concat,
}
use lighttpd.Path.Tape.{Tape, Tape-Moves, Tape-Ending, Tape-front, Tape-back}

back_lem :
    (st : Stack) (t junk block : Bytes)
    → block ≡ (render st ++ (b'/' ∷ t)) ++ junk
    → all slash_free st ≡ true
    → (if ltb 0 (length (render st))
        then walk_back block (length (render st) - 1)
        else ok (length (render st)))
      ≡ ok (length (render (pop st)))
unfolding render pop
back_lem [] t junk block e h = refl
back_lem (u ∷ st) t junk block e h =
    let R = render st in
    let len : length (R ++ (b'/' ∷ u)) ≡ length R + length u + 1 =
      omega (arith, length-append R (b'/' ∷ u)) in
    let layout : block ≡ R ++ (b'/' ∷ (u ++ ((b'/' ∷ t) ++ junk))) =
      e
      ∙ append_assoc (R ++ (b'/' ∷ u)) (b'/' ∷ t) junk
      ∙ append_assoc R (b'/' ∷ u) ((b'/' ∷ t) ++ junk) in
    let before : length (R ++ (b'/' ∷ u)) - 1 ≡ length R + length u = omega (arith, len) in
    ground (arith, len, before, layout, walk_back_lem R u ((b'/' ∷ t) ++ junk) (ground arith))

abbrev at_end : Bytes → ℕ → Stack → Bytes → ℕ → ℕ → ℕ → Walk
at_end block walk st t c pre1 pre2 = record {
  block = block;
  walk = walk;
  out = length (render st ++ (b'/' ∷ t));
  slash = length (render st);
  c = c;
  pre1 = pre1;
  pre2 = pre2;
}

module _ (st : Stack) (t junk block : Bytes) (walk pre1 pre2 : ℕ)
    (layout : block ≡ (render st ++ (b'/' ∷ t)) ++ junk) (ends : Ends t pre1 pre2)
    (free : slash_free t ≡ true) (frees : all slash_free st ≡ true) where
  toklen : length (render st ++ (b'/' ∷ t)) - length (render st) ≡ length t + 1
  toklen = omega (arith, length-append (render st) (b'/' ∷ t))

  resolve-close :
      (c : ℕ)
      → (c == b'/') ≡ true
      → resolve (at_end block walk st t c pre1 pre2) ≡ ok (length (render (close st t)))
  unfolding resolve close render
  resolve-close c y = ground (
    arith,
    toklen,
    says_dot_dot_lem ends,
    says_dot_lem ends free,
    back_lem st t junk block layout frees,
  )

  resolve-close_last :
      resolve (at_end block walk st t 0 pre1 pre2) ≡ ok (length (render (close_last st t)))
  unfolding resolve close_last render
  resolve-close_last = ground (
    arith,
    toklen,
    says_dot_dot_lem ends,
    says_dot_lem ends free,
    back_lem st t junk block layout frees,
    length-append (render st) (b'/' ∷ []),
    length-append (render (pop st)) (b'/' ∷ []),
    length-append (render st) (b'/' ∷ t),
  )

close-slash_free :
    (st : Stack) (t : Bytes)
    → slash_free t ≡ true
    → all slash_free st ≡ true
    → all slash_free (close st t) ≡ true
unfolding close pop
close-slash_free [] t h k = ground arith
close-slash_free (u ∷ st) t h k = ground arith

-- The loop ends at the zero with the rendered stack in front of the block.
pub record Arrives (fuel : ℕ) (src : Source) (w : Walk) (st : Stack) : Type 0 where
  pub last : Walk
  pub junk : Bytes
  pub runs : loop fuel src w ≡ ok last
  pub layout : last.block ≡ render st ++ junk
  pub out_is : last.out ≡ length (render st)
  pub keeps : length last.block ≡ length w.block

abbrev pub pending : Bytes → ℕ → Bytes → Stack → ℕ → ℕ → ℕ → Walk
pending m walk X st v pre1 pre2 = record {
  block = m;
  walk = walk;
  out = length X;
  slash = length (render st);
  c = v;
  pre1 = pre1;
  pre2 = pre2;
}

-- One round, for a byte read that ends no component, or one that does
step_lem :
    (src : Source) (m X : Bytes) (walk : ℕ) (st : Stack) (t : Bytes) (v pre1 pre2 c : ℕ)
    (m' : Bytes)
    → X ++ (v ∷ []) ≡ render st ++ (b'/' ∷ t)
    → read src m walk ≡ ok c
    → store m (length X) v ≡ ok m'
    → step src (pending m walk X st v pre1 pre2) ≡ (
        if c == b'/' || c == 0
        then (resolve (at_end m' (walk + 1) st t c v pre1) >>= λ out.
            ok (record (at_end m' (walk + 1) st t c v pre1) { out = out; slash = out }))
        else ok (at_end m' (walk + 1) st t c v pre1))
unfolding step
step_lem src m X walk st t v pre1 pre2 c m' e reads stores =
    let n : length X + 1 ≡ length (render st ++ (b'/' ∷ t)) =
      omega (arith, ap length e, length-append X (v ∷ [])) in
    rw (reads, stores, n)

loop-step :
    (fuel : ℕ) (src : Source) (w w' : Walk)
    → w.c ≢ 0
    → step src w ≡ ok w'
    → loop (suc fuel) src w ≡ loop fuel src w'
unfolding loop
loop-step fuel src w w' ne e = ground (arith, ne, e)

loop_stop : (fuel : ℕ) (src : Source) (w : Walk) → w.c ≡ 0 → loop (suc fuel) src w ≡ ok w
unfolding loop
loop_stop fuel src w e = ground (arith, e)

Arrives-step :
    (fuel : ℕ) (src : Source) (w w' : Walk) (st : Stack)
    → w.c ≢ 0
    → step src w ≡ ok w'
    → length w'.block ≡ length w.block
    → Arrives fuel src w' st
    → Arrives (suc fuel) src w st
Arrives-step fuel src w w' st ne one keeps a = record {
  last = a.last;
  junk = a.junk;
  runs = loop-step fuel src w w' ne one ∙ a.runs;
  layout = a.layout;
  out_is = a.out_is;
  keeps = a.keeps ∙ keeps;
}

pub loop_lem :
    (rest : Bytes) (fuel : ℕ) (src : Source) (m X : Bytes) (walk : ℕ) (st : Stack) (t : Bytes)
    (v pre1 pre2 : ℕ)
    → length rest + 1 < fuel
    → X ++ (v ∷ []) ≡ render st ++ (b'/' ∷ t)
    → v ≢ 0
    → All (λ c. c ≢ 0) rest
    → Tape src m X walk rest
    → Ends t v pre1
    → slash_free t ≡ true
    → all slash_free st ≡ true
    → Arrives fuel src (pending m walk X st v pre1 pre2) (walk_components st t rest)
loop_lem rest zero src m X walk st t v pre1 pre2 lt e ne h tape ends free frees =
    absurd (omega arith)
loop_lem rest (suc zero) src m X walk st t v pre1 pre2 lt e ne h tape ends free frees =
    absurd (omega arith)
loop_lem [] (suc (suc fuel)) src m X walk st t v pre1 pre2 lt e ne h tape ends free frees =
    let k = Tape-Ending src m X walk v tape in
    let (Z, cut) = close_last_prefix st t in
    let layout : k.block ≡ (render st ++ (b'/' ∷ t)) ++ k.junk =
      k.layout ∙ ap (λ (u : Bytes). u ++ k.junk) e in
    let out = length (render (close_last st t)) in
    let w' : Walk = record (at_end k.block (walk + 1) st t 0 v pre1) { out = out; slash = out } in
    let one =
      step_lem src m X walk st t v pre1 pre2 0 k.block e k.reads k.stores
      ∙ rw (resolve-close_last st t k.junk k.block (walk + 1) v pre1 layout ends free frees) in
    record {
      last = w';
      junk = Z ++ k.junk;
      runs =
          loop-step (suc fuel) src (pending m walk X st v pre1 pre2) w' ne one
          ∙ loop_stop fuel src w' refl;
      layout =
          unfold walk_components in
          layout
          ∙ ap (λ (u : Bytes). u ++ k.junk) cut
          ∙ append_assoc (render (close_last st t)) Z k.junk;
      out_is = unfold walk_components in refl;
      keeps = k.keeps;
    }
loop_lem (c ∷ rest) (suc (suc fuel)) src m X walk st t v pre1 pre2 lt e ne h tape ends free frees =
    let k = Tape-Moves src m X walk c rest v tape in
    let tape' : Tape src k.block (render st ++ (b'/' ∷ t)) (walk + 1) rest =
      subst (λ (u : Bytes). Tape src k.block u (walk + 1) rest) e k.tape in
    let one = step_lem src m X walk st t v pre1 pre2 c k.block e k.reads k.stores in
    elim (Bool-cases (c == b'/')) [
      | inl y ↦
          let st' = close st t in
          let (Z, cut) = close_prefix st t in
          let (junk, layout) =
            Tape-front src k.block (render st ++ (b'/' ∷ t)) (walk + 1) rest tape' in
          let back =
            Tape-back src k.block (render st ++ (b'/' ∷ t)) (render st') Z (walk + 1) rest cut
              tape' in
          let closed =
            resolve-close st t junk k.block (walk + 1) v pre1 layout ends free frees c y in
          Arrives-step (suc fuel) src (pending m walk X st v pre1 pre2)
            (pending k.block (walk + 1) (render st') st' c v pre1) (walk_components st t (c ∷ rest))
            ne (one ∙ rw (y, closed)) k.keeps
            (rw (walk_components_slash st t c rest y) (
              loop_lem rest (suc fuel) src k.block (render st') (walk + 1) st' [] c v pre1
                (omega arith) (ap (λ (x : ℕ). render st' ++ (x ∷ [])) (==→eq c b'/' y)) h.0 h.1 back
                (none_yet refl (==→eq c b'/' y)) refl (close-slash_free st t free frees)))
      | inr n ↦
          let X' = render st ++ (b'/' ∷ t) in
          Arrives-step (suc fuel) src (pending m walk X st v pre1 pre2)
            (pending k.block (walk + 1) X' st c v pre1) (walk_components st t (c ∷ rest)) ne
            (one ∙ ground (arith, n, h.0)) k.keeps
            (rw (walk_components_byte st t c rest n) (
              loop_lem rest (suc fuel) src k.block X' (walk + 1) st (t ++ (c ∷ [])) c v pre1
                (omega arith) (append_assoc (render st) (b'/' ∷ t) (c ∷ [])) h.0 h.1 tape'
                (Ends-concat c ends) (slash_free-concat t c free n) frees))
    ]
