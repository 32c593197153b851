-- ===== src/Path/Spec.antt =====
-- What a simplified path is: components on a stack, the last one first.
use lighttpd.Base.{
  ℕ, ◌≡◌, refl, ◌⊎◌, inl, inr, Bool, true, false, not, ◌&&◌, List, [], ◌∷◌, ◌++◌, arith, ◌==◌,
  if◌then◌else◌, Bool-cases, length, all, all-append,
}
use lighttpd.Memory.{Bytes}

abbrev pub Stack : Type 0
Stack = List Bytes

abbrev pub slash_free : Bytes → Bool
slash_free t = all (λ c. not (c == b'/')) t

unfoldable pub is_dot : Bytes → Bool
is_dot [] = true
is_dot (c ∷ []) = c == b'.'
is_dot (c ∷ d ∷ t) = false

unfoldable pub is_dot_dot : Bytes → Bool
is_dot_dot (c ∷ d ∷ []) = c == b'.' && d == b'.'
is_dot_dot _ = false

unfoldable pub pop : Stack → Stack
pop [] = []
pop (t ∷ st) = st

-- A component is complete: `..` removes one, an empty one and `.` are dropped.
unfoldable pub close : Stack → Bytes → Stack
close st t = if is_dot_dot t then pop st else if is_dot t then st else t ∷ st

-- The last component; where it is dropped a slash stays.
unfoldable pub close_last : Stack → Bytes → Stack
close_last st t = if is_dot_dot t then [] ∷ pop st else if is_dot t then [] ∷ st else t ∷ st

unfoldable pub walk_components : Stack → Bytes → Bytes → Stack
walk_components st t [] = close_last st t
walk_components st t (c ∷ s) =
    walk_components (if c == b'/' then close st t else st) (if c == b'/' then [] else t ++ (c ∷ []))
      s

pub walk_components_slash :
    (st : Stack) (t : Bytes) (c : ℕ) (s : Bytes)
    → (c == b'/') ≡ true
    → walk_components st t (c ∷ s) ≡ walk_components (close st t) [] s
unfolding walk_components
walk_components_slash st t c s y = rw y

pub walk_components_byte :
    (st : Stack) (t : Bytes) (c : ℕ) (s : Bytes)
    → (c == b'/') ≡ false
    → walk_components st t (c ∷ s) ≡ walk_components st (t ++ (c ∷ [])) s
unfolding walk_components
walk_components_byte st t c s n = rw n

-- The path that a stack stands for
unfoldable pub render : Stack → Bytes
render [] = []
render (t ∷ st) = render st ++ (b'/' ∷ t)

pub length-render-nil : length (render []) ≡ 0
unfolding render
length-render-nil = refl

unfoldable pub strip_spaces : Bytes → Bytes
strip_spaces [] = []
strip_spaces (c ∷ s) = if c == b' ' then strip_spaces s else c ∷ s

-- A leading slash begins the first component, and is supplied where there is none.
unfoldable pub components : Bytes → Stack
components [] = walk_components [] [] []
components (c ∷ s) = walk_components [] (if c == b'/' then [] else c ∷ []) s

-- The simplified form of a nonempty path
abbrev pub simplified : Bytes → Bytes
simplified s = render (components (strip_spaces s))

-- A component that a client may be given
abbrev pub is_proper : Bytes → Bool
is_proper t = slash_free t && (not (is_dot t) && not (is_dot_dot t))

-- Every component is proper, but the last one may be empty.
abbrev pub IsClean : Stack → Type 0
IsClean [] = ⊥
IsClean (t ∷ st) = ((t ≡ []) ⊎ (is_proper t ≡ true)) × (all is_proper st ≡ true)

close-proper :
    (st : Stack) (t : Bytes)
    → slash_free t ≡ true
    → all is_proper st ≡ true
    → all is_proper (close st t) ≡ true
unfolding close pop
close-proper [] t h k = ground arith
close-proper (u ∷ st) t h k = ground arith

close_last-IsClean :
    (st : Stack) (t : Bytes)
    → slash_free t ≡ true
    → all is_proper st ≡ true
    → IsClean (close_last st t)
unfolding close_last pop
close_last-IsClean st t h k = elim (Bool-cases (is_dot_dot t)) [
  | inl up ↦ rw up (inl refl, pop-proper st k)
  | inr on ↦ rw on (elim (Bool-cases (is_dot t)) [
    | inl here ↦ rw here (inl refl, k)
    | inr there ↦ rw there (inr (ground (arith, on, there)), k)
  ])
]
  where
    pop-proper : (st : Stack) → all is_proper st ≡ true → all is_proper (pop st) ≡ true
    pop-proper [] k = refl
    pop-proper (u ∷ st) k = ground arith

pub slash_free-tail : (u v : Bytes) → slash_free (u ++ v) ≡ true → slash_free v ≡ true
slash_free-tail [] v h = h
slash_free-tail (c ∷ u) v h = ground (arith, slash_free-tail u v)

pub slash_free-middle :
    (us : Bytes) (x : ℕ) (vs : Bytes) → slash_free (us ++ (x ∷ vs)) ≡ true → (x == b'/') ≡ false
slash_free-middle us x vs h = ground (arith, slash_free-tail us (x ∷ vs) h)

pub slash_free-concat :
    (t : Bytes) (c : ℕ)
    → slash_free t ≡ true
    → (c == b'/') ≡ false
    → slash_free (t ++ (c ∷ [])) ≡ true
slash_free-concat t c h n = all-append _ t (c ∷ []) h (ground arith)

walk_components-IsClean :
    (st : Stack) (t s : Bytes)
    → slash_free t ≡ true
    → all is_proper st ≡ true
    → IsClean (walk_components st t s)
unfolding walk_components
walk_components-IsClean st t [] h k = close_last-IsClean st t h k
walk_components-IsClean st t (c ∷ s) h k = elim (Bool-cases (c == b'/')) [
  | inl y ↦ rw y (walk_components-IsClean (close st t) [] s refl (close-proper st t h k))
  | inr n ↦ rw n (walk_components-IsClean st (t ++ (c ∷ [])) s (slash_free-concat t c h n) k)
]

-- No component of a simplified path is `.` or `..`, has a slash in it, or is empty before the last:
-- whatever the client sent, the path does not lead out of the root.
pub components-IsClean : (s : Bytes) → IsClean (components (strip_spaces s))
unfolding components
components-IsClean s = clean (strip_spaces s)
  where
    clean : (s : Bytes) → IsClean (components s)
    clean [] = walk_components-IsClean [] [] [] refl refl
    clean (c ∷ s) = elim (Bool-cases (c == b'/')) [
      | inl y ↦ rw y (walk_components-IsClean [] [] s refl refl)
      | inr n ↦ rw n (walk_components-IsClean [] (c ∷ []) s (ground arith) refl)
    ]
