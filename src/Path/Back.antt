-- ===== src/Path/Back.antt =====
-- The end of a component: what the tests on `toklen`, `pre1` and `pre2` decide, and where `out`
-- goes.
use lighttpd.Base.{
  ℕ, zero, suc, ◌+◌, ◌≤◌, ◌≡◌, refl, sym, ◌∙◌, inl, inr, Bool, true, ◌&&◌, ◌||◌, [], ◌∷◌, ◌++◌,
  append-nil, append_assoc, arith, ◌==◌, Bool-cases, length, length-append, split_at,
}
use lighttpd.Memory.{ok, Bytes, load}
use lighttpd.Memory.Blocks.{load_at}
use lighttpd.Path.{walk_back}
use lighttpd.Path.Spec.{
  Stack, slash_free, is_dot, is_dot_dot, pop, close, close_last, render, slash_free-tail,
  slash_free-middle,
}

-- The two bytes last read, for a component and the slash before it
pub data Ends : Bytes → ℕ → ℕ → Type 0 where
  none_yet : {t : Bytes} {pre1 pre2 : ℕ} → t ≡ [] → pre1 ≡ b'/' → Ends t pre1 pre2
  only_one : {t : Bytes} {pre1 pre2 : ℕ} → t ≡ pre1 ∷ [] → pre2 ≡ b'/' → Ends t pre1 pre2
  two_or_more :
      {t : Bytes} {pre1 pre2 : ℕ} (u : Bytes) → t ≡ u ++ (pre2 ∷ pre1 ∷ []) → Ends t pre1 pre2

pub Ends-concat :
    {t : Bytes} {pre1 pre2 : ℕ} (c : ℕ) → Ends t pre1 pre2 → Ends (t ++ (c ∷ [])) c pre1
Ends-concat c (none_yet e p) = only_one (rw e refl) p
Ends-concat c (only_one e p) = two_or_more [] (rw e refl)
Ends-concat {pre1 = pre1} {pre2 = pre2} c (two_or_more u e) = two_or_more (u ++ (pre2 ∷ [])) (
    rw (e, append_assoc u (pre2 ∷ pre1 ∷ []) (c ∷ []), append_assoc u (pre2 ∷ []) (pre1 ∷ c ∷ []))
      refl)

abbrev pub says_dot_dot : ℕ → ℕ → ℕ → Bool
says_dot_dot toklen pre1 pre2 = toklen == 3 && (pre2 == b'.' && pre1 == b'.')

abbrev pub says_dot : ℕ → ℕ → ℕ → Bool
says_dot toklen pre1 pre2 = toklen == 1 || (pre2 == b'/' && pre1 == b'.')

more_dot_dot :
    (u : Bytes) (pre1 pre2 : ℕ)
    → says_dot_dot (length (u ++ (pre2 ∷ pre1 ∷ [])) + 1) pre1 pre2
      ≡ is_dot_dot (u ++ (pre2 ∷ pre1 ∷ []))
unfolding is_dot_dot
more_dot_dot [] pre1 pre2 = ground arith
more_dot_dot (a ∷ []) pre1 pre2 = ground arith
more_dot_dot (a ∷ b ∷ []) pre1 pre2 = ground arith
more_dot_dot (a ∷ b ∷ d ∷ u) pre1 pre2 = ground (arith, length-append u (pre2 ∷ pre1 ∷ []))

more_dot :
    (u : Bytes) (pre1 pre2 : ℕ)
    → slash_free (u ++ (pre2 ∷ pre1 ∷ [])) ≡ true
    → says_dot (length (u ++ (pre2 ∷ pre1 ∷ [])) + 1) pre1 pre2 ≡ is_dot (u ++ (pre2 ∷ pre1 ∷ []))
unfolding is_dot
more_dot [] pre1 pre2 h = ground arith
more_dot (a ∷ []) pre1 pre2 h = ground arith
more_dot (a ∷ b ∷ u) pre1 pre2 h =
    ground (arith, length-append u (pre2 ∷ pre1 ∷ []), slash_free-tail u (pre2 ∷ pre1 ∷ []))

pub says_dot_dot_lem :
    {t : Bytes} {pre1 pre2 : ℕ}
    → Ends t pre1 pre2
    → says_dot_dot (length t + 1) pre1 pre2 ≡ is_dot_dot t
says_dot_dot_lem (none_yet e p) = unfold is_dot_dot in ground arith
says_dot_dot_lem (only_one e p) = unfold is_dot_dot in ground arith
says_dot_dot_lem {pre1 = pre1} {pre2 = pre2} (two_or_more u e) = rw e (more_dot_dot u pre1 pre2)

pub says_dot_lem :
    {t : Bytes} {pre1 pre2 : ℕ}
    → Ends t pre1 pre2
    → slash_free t ≡ true
    → says_dot (length t + 1) pre1 pre2 ≡ is_dot t
says_dot_lem (none_yet e p) h = unfold is_dot in ground arith
says_dot_lem (only_one e p) h = unfold is_dot in ground arith
says_dot_lem {pre1 = pre1} {pre2 = pre2} (two_or_more u e) h =
    rw e (more_dot u pre1 pre2 (rw e at h))

-- From the end of a component `out` goes back to the slash before it.
walk_back_within :
    (R t rest : Bytes) (k : ℕ)
    → slash_free t ≡ true
    → k ≤ length t
    → walk_back (R ++ (b'/' ∷ (t ++ rest))) (length R + k) ≡ ok (length R)
unfolding walk_back
walk_back_within [] t rest zero h le = refl
walk_back_within (r ∷ R) t rest zero h le = ground (arith, load_at (r ∷ R) (t ++ rest) b'/')
walk_back_within R t rest (suc k) h le =
    let (us, x, vs, e, n) = split_at k t le in
    let at : length R + suc k ≡ suc (length R + k) = omega arith in
    let here : length (R ++ (b'/' ∷ us)) ≡ suc (length R + k) =
      omega (arith, n, length-append R (b'/' ∷ us)) in
    let block : R ++ (b'/' ∷ (t ++ rest)) ≡ (R ++ (b'/' ∷ us)) ++ (x ∷ (vs ++ rest)) =
      rw (e, append_assoc us (x ∷ vs) rest) (sym (append_assoc R (b'/' ∷ us) (x ∷ (vs ++ rest)))) in
    let found : load (R ++ (b'/' ∷ (t ++ rest))) (suc (length R + k)) ≡ ok x =
      rw (block, ← here) (load_at (R ++ (b'/' ∷ us)) (vs ++ rest) x) in
    ground
      (arith, at, found, slash_free-middle us x vs, e, walk_back_within R t rest k h (omega arith))

pub walk_back_lem :
    (R t rest : Bytes)
    → slash_free t ≡ true
    → walk_back (R ++ (b'/' ∷ (t ++ rest))) (length R + length t) ≡ ok (length R)
walk_back_lem R t rest h = walk_back_within R t rest (length t) h (omega arith)

-- What is kept when a component is closed stands in front of what is dropped.
pub close_prefix :
    (st : Stack) (t : Bytes) → (Z : Bytes) × (render st ++ (b'/' ∷ t) ≡ render (close st t) ++ Z)
unfolding close
close_prefix st t = elim (Bool-cases (is_dot_dot t)) [
  | inl up ↦ rw up (popped st)
  | inr on ↦ rw on (elim (Bool-cases (is_dot t)) [
    | inl here ↦ rw here (b'/' ∷ t, refl)
    | inr there ↦ rw there ([], unfold render in sym (append-nil (render st ++ (b'/' ∷ t))))
  ])
]
  where
    popped : (st : Stack) → (Z : Bytes) × (render st ++ (b'/' ∷ t) ≡ render (pop st) ++ Z)
    popped [] = unfold pop render in (b'/' ∷ t, refl)
    popped (u ∷ st) =
        unfold pop render in
        ((b'/' ∷ u) ++ (b'/' ∷ t), append_assoc (render st) (b'/' ∷ u) (b'/' ∷ t))

pub close_last_prefix :
    (st : Stack) (t : Bytes)
    → (Z : Bytes) × (render st ++ (b'/' ∷ t) ≡ render (close_last st t) ++ Z)
unfolding close_last
close_last_prefix st t = elim (Bool-cases (is_dot_dot t)) [
  | inl up ↦ rw up (popped st)
  | inr on ↦ rw on (elim (Bool-cases (is_dot t)) [
    | inl here ↦ rw here (t, unfold render in sym (append_assoc (render st) (b'/' ∷ []) t))
    | inr there ↦ rw there ([], unfold render in sym (append-nil (render st ++ (b'/' ∷ t))))
  ])
]
  where
    popped : (st : Stack) → (Z : Bytes) × (render st ++ (b'/' ∷ t) ≡ render ([] ∷ pop st) ++ Z)
    popped [] = unfold pop render in (t, refl)
    popped (u ∷ st) =
        unfold pop render in
        (
          u ++ (b'/' ∷ t),
          append_assoc (render st) (b'/' ∷ u) (b'/' ∷ t)
              ∙ sym (append_assoc (render st) (b'/' ∷ []) (u ++ (b'/' ∷ t))),
        )
