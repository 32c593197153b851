-- ===== src/Path/Tape.antt =====
-- The bytes written and the bytes still to be read. In place, a gap of bytes already read stands
-- between them; otherwise they lie in two blocks, and there is room for what is still to come.
use lighttpd.Base.{
  ℕ, ◌+◌, ◌<◌, ◌≡◌, sym, ap, ◌∙◌, none, some, [], ◌∷◌, ◌++◌, append_assoc, arith, length,
  length-append,
}
use lighttpd.Memory.{ok, Bytes, store}
use lighttpd.Memory.Blocks.{load_at, store_at}
use lighttpd.Memory.Shift.{shift, length-shift, store_front, load_behind, length_step}
use lighttpd.Path.{Source, read}

abbrev pub Tape : Source → Bytes → Bytes → ℕ → Bytes → Type 0
Tape none m X walk rest =
    (gap : Bytes) × (tail : Bytes) × (m ≡ X ++ (gap ++ (rest ++ (0 ∷ tail))))
    × (walk ≡ length X + length gap)
Tape (some s) m X walk rest =
    (junk : Bytes) × (before : Bytes) × (tail : Bytes) × (m ≡ X ++ junk)
    × (s ≡ before ++ (rest ++ (0 ∷ tail)))
    × (walk ≡ length before)
    × (length rest < length junk)

-- The next byte is read, and one byte is written.
pub record Moves (src : Source) (m X : Bytes) (walk : ℕ) (rest : Bytes) (c v : ℕ) : Type 0 where
  pub block : Bytes
  pub reads : read src m walk ≡ ok c
  pub stores : store m (length X) v ≡ ok block
  pub tape : Tape src block (X ++ (v ∷ [])) (walk + 1) rest
  pub keeps : length block ≡ length m

pub Tape-Moves :
    (src : Source) (m X : Bytes) (walk c : ℕ) (rest : Bytes) (v : ℕ)
    → Tape src m X walk (c ∷ rest)
    → Moves src m X walk rest c v
unfolding read
Tape-Moves none m X walk c rest v (gap, tail, e, at) = record {
  block = X ++ (v ∷ (shift gap c ++ (rest ++ (0 ∷ tail))));
  reads = rw e (load_behind X gap c (rest ++ (0 ∷ tail)) walk at);
  stores = rw e (store_front X gap c v (rest ++ (0 ∷ tail)));
  tape = (
    shift gap c,
    tail,
    sym (append_assoc X (v ∷ []) (shift gap c ++ (rest ++ (0 ∷ tail)))),
    omega (arith, at, length-append X (v ∷ []), length-shift gap c),
  );
  keeps = length_step X gap c v (rest ++ (0 ∷ tail)) ∙ ap length (sym e);
}
Tape-Moves (some s) m X walk c rest v ([], before, tail, e, es, at, room) = absurd (omega arith)
Tape-Moves (some s) m X walk c rest v (j ∷ junk, before, tail, e, es, at, room) = record {
  block = X ++ (v ∷ junk);
  reads = rw (es, at) (load_at before (rest ++ (0 ∷ tail)) c);
  stores = rw e (store_at X junk j v);
  tape = (
    junk,
    before ++ (c ∷ []),
    tail,
    sym (append_assoc X (v ∷ []) junk),
    es ∙ sym (append_assoc before (c ∷ []) (rest ++ (0 ∷ tail))),
    omega (arith, at, length-append before (c ∷ [])),
    omega arith,
  );
  keeps = omega (arith, ap length e, length-append X (j ∷ junk), length-append X (v ∷ junk));
}

-- The last byte is written once the end has been read.
pub record Ending (src : Source) (m X : Bytes) (walk : ℕ) (v : ℕ) : Type 0 where
  pub block : Bytes
  pub reads : read src m walk ≡ ok 0
  pub stores : store m (length X) v ≡ ok block
  pub junk : Bytes
  pub layout : block ≡ (X ++ (v ∷ [])) ++ junk
  pub keeps : length block ≡ length m

pub Tape-Ending :
    (src : Source) (m X : Bytes) (walk v : ℕ) → Tape src m X walk [] → Ending src m X walk v
unfolding read
Tape-Ending none m X walk v (gap, tail, e, at) = record {
  block = X ++ (v ∷ (shift gap 0 ++ tail));
  reads = rw e (load_behind X gap 0 tail walk at);
  stores = rw e (store_front X gap 0 v tail);
  junk = shift gap 0 ++ tail;
  layout = sym (append_assoc X (v ∷ []) (shift gap 0 ++ tail));
  keeps = length_step X gap 0 v tail ∙ ap length (sym e);
}
Tape-Ending (some s) m X walk v ([], before, tail, e, es, at, room) = absurd (omega arith)
Tape-Ending (some s) m X walk v (j ∷ junk, before, tail, e, es, at, room) = record {
  block = X ++ (v ∷ junk);
  reads = rw (es, at) (load_at before tail 0);
  stores = rw e (store_at X junk j v);
  junk = junk;
  layout = sym (append_assoc X (v ∷ []) junk);
  keeps = omega (arith, ap length e, length-append X (j ∷ junk), length-append X (v ∷ junk));
}

pub Tape-front :
    (src : Source) (m X : Bytes) (walk : ℕ) (rest : Bytes)
    → Tape src m X walk rest
    → (junk : Bytes) × (m ≡ X ++ junk)
Tape-front none m X walk rest (gap, tail, e, at) = (gap ++ (rest ++ (0 ∷ tail)), e)
Tape-front (some s) m X walk rest (junk, before, tail, e, es, at, room) = (junk, e)

-- Going back over bytes written makes them free.
pub Tape-back :
    (src : Source) (m X Y Z : Bytes) (walk : ℕ) (rest : Bytes)
    → X ≡ Y ++ Z
    → Tape src m X walk rest
    → Tape src m Y walk rest
Tape-back none m X Y Z walk rest x (gap, tail, e, at) = (
  Z ++ gap,
  tail,
  e
      ∙ rw x (
          append_assoc Y Z (gap ++ (rest ++ (0 ∷ tail)))
          ∙ ap (λ (u : Bytes). Y ++ u) (sym (append_assoc Z gap (rest ++ (0 ∷ tail))))),
  omega (arith, at, ap length x, length-append Y Z, length-append Z gap),
)
Tape-back (some s) m X Y Z walk rest x (junk, before, tail, e, es, at, room) = (
  Z ++ junk,
  before,
  tail,
  e ∙ rw x (append_assoc Y Z junk),
  es,
  at,
  omega (arith, room, length-append Z junk),
)
