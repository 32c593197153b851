-- ===== src/Connection/Extract.antt =====
-- The search for the end of a header over a chain of chunks (src/connections.c), and the same
-- search in the bytes of the chain put together.
use lighttpd.Base.{
  ℕ, suc, ◌+◌, ◌-◌, ◌≤◌, ◌<◌, ◌≡◌, refl, ◌⊎◌, inl, inr, Bool, true, false, Option, none, some, List,
  [], ◌∷◌, ◌++◌, arith, ◌==◌, if◌then◌else◌, Bool-cases, length, get_or,
}
use lighttpd.Memory.{Bytes}
use lighttpd.Chunk.{Chunk}
use lighttpd.Connection.HeaderEnd.{
  view, header_end, match_header_end, first_some, find_from, find_header_end,
}

-- The bytes of a chain, one chunk after the other
unfoldable pub flat_view : List Chunk → Bytes
flat_view [] = []
flat_view (c ∷ cs) = view c ++ flat_view cs

-- Whether what is left of `\r\n\r\n` begins a string
unfoldable pub begins_end : ℕ → Bytes → Bool
begins_end seen [] = false
begins_end seen (ch ∷ s) =
    let rest = begins_end (seen + 1) s in
    if ch == get_or header_end seen 0 then (if seen + 1 == 4 then true else rest) else false

abbrev pub after_one : Option ℕ → Option ℕ
after_one none = none
after_one (some n) = some (suc n)

-- How many bytes there are up to the end of the first `\r\n\r\n`
unfoldable pub header_length : Bytes → Option ℕ
header_length [] = none
header_length (ch ∷ s) = if begins_end 0 (ch ∷ s) then some 4 else after_one (header_length s)

-- The place `o` of the chunk `i` is `n` bytes behind the place `j` of the chunk `idx`, of which `b`
-- is left and which `cs` follows.
abbrev pub Placed : ℕ → ℕ → Bytes → List Chunk → ℕ → ℕ → ℕ → Type 0
Placed idx j b [] i o n = (i ≡ idx) × (o ≡ j + n) × (n ≤ length b)
Placed idx j b (c ∷ cs) i o n =
    ((i ≡ idx) × (o ≡ j + n) × (n ≤ length b))
    ⊎ ((m : ℕ) × (n ≡ length b + m) × Placed (idx + 1) 0 (view c) cs i o m)

Placed-shift :
    (idx j ch : ℕ) (b : Bytes) (cs : List Chunk) (i o n : ℕ)
    → Placed idx (j + 1) b cs i o n
    → Placed idx j (ch ∷ b) cs i o (suc n)
Placed-shift idx j ch b [] i o n p = (p.0, omega (arith, p.1), omega (arith, p.2))
Placed-shift idx j ch b (c ∷ cs) i o n (inl p) = inl (p.0, omega (arith, p.1), omega (arith, p.2))
Placed-shift idx j ch b (c ∷ cs) i o n (inr (m, e, p)) = inr (m, omega (arith, e), p)

Placed-first : (idx j ch : ℕ) (b : Bytes) (cs : List Chunk) → Placed idx j (ch ∷ b) cs idx (j + 1) 1
Placed-first idx j ch b [] = (refl, refl, omega arith)
Placed-first idx j ch b (c ∷ cs) = inl (refl, refl, omega arith)

pub Placed-le :
    (idx j : ℕ) (b : Bytes) (cs : List Chunk) (i o n : ℕ) → Placed idx j b cs i o n → idx ≤ i
Placed-le idx j b [] i o n p = omega (arith, p.0)
Placed-le idx j b (c ∷ cs) i o n (inl p) = omega (arith, p.0)
Placed-le idx j b (c ∷ cs) i o n (inr (m, e, p)) =
    omega (arith, Placed-le (idx + 1) 0 (view c) cs i o m p)

-- What a search gives, against the number of bytes that the flat search gives
abbrev pub Finds : ℕ → ℕ → Bytes → List Chunk → Option (ℕ × ℕ) → Option ℕ → Type 0
Finds idx j b cs r none = r ≡ none
Finds idx j b cs r (some n) = (i : ℕ) × (o : ℕ) × (r ≡ some (i, o)) × Placed idx j b cs i o n

abbrev match_length : ℕ → Bool → Option ℕ
match_length seen true = some (4 - seen)
match_length seen false = none

Finds-next :
    (idx j : ℕ) (c : Chunk) (cs : List Chunk) (r : Option (ℕ × ℕ)) (n : Option ℕ)
    → Finds (idx + 1) 0 (view c) cs r n
    → Finds idx j [] (c ∷ cs) r n
Finds-next idx j c cs r none f = f
Finds-next idx j c cs r (some n) (i, o, e, p) = (i, o, e, inr (n, omega arith, p))

match_header_end-Finds :
    (seen idx j : ℕ) (b : Bytes) (cs : List Chunk)
    → seen < 4
    → Finds idx j b cs
        (match_header_end seen idx j b cs)
        (match_length seen (begins_end seen (b ++ flat_view cs)))
unfolding match_header_end begins_end flat_view
match_header_end-Finds seen idx j [] [] h = refl
match_header_end-Finds seen idx j [] (c ∷ cs) h =
    Finds-next idx j c cs _ _ (match_header_end-Finds seen (idx + 1) 0 (view c) cs h)
match_header_end-Finds seen idx j (ch ∷ b) cs h =
    elim (Bool-cases (ch == get_or header_end seen 0)) [
      | inr differs ↦ rw differs refl
      | inl same ↦ elim (Bool-cases (seen + 1 == 4)) [
        | inl complete ↦
            let one_left : 4 - seen ≡ 1 = ground (arith, complete) in
            rw (same, complete) (idx, j + 1, refl, rw one_left (Placed-first idx j ch b cs))
        | inr more_left ↦
            rw (same, more_left)
              (shifted (begins_end (seen + 1) (b ++ flat_view cs))
                (match_header_end-Finds (seen + 1) idx (j + 1) b cs (ground (arith, h, more_left))))
      ]
    ]
  where
    shifted :
        (r : Bool)
        → Finds idx
            (j + 1)
            b
            cs
            (match_header_end (seen + 1) idx (j + 1) b cs)
            (match_length (seen + 1) r)
        → Finds idx j
            (ch ∷ b)
            cs
            (match_header_end (seen + 1) idx (j + 1) b cs)
            (match_length seen r)
    shifted false f = f
    shifted true (i, o, e, p) =
        let n : 4 - seen ≡ suc (4 - (seen + 1)) = omega (arith, h) in
        (i, o, e, rw n (Placed-shift idx j ch b cs i o (4 - (seen + 1)) p))

find_from-Finds :
    (idx i : ℕ) (b : Bytes) (cs : List Chunk)
    → Finds idx i b cs (find_from idx i b cs) (header_length (b ++ flat_view cs))
unfolding find_from header_length begins_end flat_view
find_from-Finds idx i [] [] = refl
find_from-Finds idx i [] (c ∷ cs) =
    Finds-next idx i c cs _ _ (find_from-Finds (idx + 1) 0 (view c) cs)
find_from-Finds idx i (ch ∷ b) cs = elim (Bool-cases (ch == b'\r')) [
  | inr differs ↦
      rw differs (later (header_length (b ++ flat_view cs)) (find_from-Finds idx (i + 1) b cs))
  | inl same ↦ rw same (
      either (begins_end 1 (b ++ flat_view cs)) (match_header_end 1 idx (i + 1) b cs)
        (header_length (b ++ flat_view cs))
        (match_header_end-Finds 1 idx (i + 1) b cs (omega arith))
        (find_from-Finds idx (i + 1) b cs))
]
  where
    later :
        (n : Option ℕ)
        → Finds idx (i + 1) b cs (find_from idx (i + 1) b cs) n
        → Finds idx i (ch ∷ b) cs (find_from idx (i + 1) b cs) (after_one n)
    later none f = f
    later (some n) (k, o, e, p) = (k, o, e, Placed-shift idx i ch b cs k o n p)

    either :
        (r : Bool) (found : Option (ℕ × ℕ)) (n : Option ℕ)
        → Finds idx (i + 1) b cs found (match_length 1 r)
        → Finds idx (i + 1) b cs (find_from idx (i + 1) b cs) n
        → Finds idx i
            (ch ∷ b)
            cs
            (first_some found (find_from idx (i + 1) b cs))
            (if r then some 4 else after_one n)
    either true found n (k, o, e, p) f = (k, o, rw e refl, Placed-shift idx i ch b cs k o 3 p)
    either false found n g f = rw g (later n f)

-- The code's search over the chunks finds the place that the flat search tells.
pub find_header_end-Finds :
    (idx : ℕ) (c : Chunk) (cs : List Chunk)
    → Finds idx 0 (view c) cs (find_header_end idx (c ∷ cs)) (header_length (flat_view (c ∷ cs)))
unfolding find_header_end flat_view
find_header_end-Finds idx c cs = find_from-Finds idx 0 (view c) cs

begins_end-length : (seen : ℕ) (s : Bytes) → begins_end seen s ≡ true → 4 ≤ seen + length s
unfolding begins_end
begins_end-length seen [] h = cc
begins_end-length seen (ch ∷ s) h = elim (Bool-cases (seen + 1 == 4)) [
  | inl complete ↦ ground (arith, complete)
  | inr more_left ↦ omega (arith, begins_end-length (seen + 1) s (ground (arith, more_left, h)))
]

pub header_length-le : (s : Bytes) (n : ℕ) → header_length s ≡ some n → n ≤ length s
unfolding header_length
header_length-le [] n e = cc
header_length-le (ch ∷ s) n e = elim (Bool-cases (begins_end 0 (ch ∷ s))) [
  | inl here ↦ enough s (ground (arith, here, e)) here
  | inr later ↦ behind (header_length s) (header_length-le s) (ground (arith, later, e))
]
  where
    enough : (s : Bytes) → n ≡ 4 → begins_end 0 (ch ∷ s) ≡ true → n ≤ length (ch ∷ s)
    enough s e h = omega (arith, e, begins_end-length 0 (ch ∷ s) h)

    behind :
        (r : Option ℕ)
        → ((k : ℕ) → r ≡ some k → k ≤ length s)
        → after_one r ≡ some n
        → n ≤ length (ch ∷ s)
    behind none f e = cc
    behind (some k) f e = ground (arith, f k refl)
