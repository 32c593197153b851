-- ===== src/Url/Decode.antt =====
-- URL decoding as a function on strings.
use lighttpd.Base.{
  ℕ, ◌≤◌, ◌≡◌, refl, ◌≢◌, inl, inr, Bool, ◌&&◌, Option, none, some, [], ◌∷◌, ◌++◌, arith, ◌==◌,
  if◌then◌else◌, Bool-cases, length, All,
}
use lighttpd.Memory.{Bytes}
use lighttpd.Chars.{hex2int}
use lighttpd.Url.{printable, joined}

-- A C string ends at its first zero.
unfoldable pub until_nul : Bytes → Bytes
until_nul [] = []
until_nul (c ∷ s) = if c == 0 then [] else c ∷ until_nul s

-- The byte that two digits stand for, if both are digits
unfoldable pub escape_value : ℕ → ℕ → Option ℕ
escape_value a b =
    if hex2int a == 255
    then none
    else if hex2int b == 255
    then none
    else some (printable (joined (hex2int a) (hex2int b)))

abbrev pub plain_byte : Bool → ℕ → ℕ
plain_byte is_query c = if is_query && c == b'+' then b' ' else c

-- A `%` that no two digits follow stands for itself.
unfoldable pub decode : Bool → Bytes → Bytes
decode q [] = []
decode q (c ∷ []) = plain_byte q c ∷ []
decode q (c ∷ a ∷ []) = plain_byte q c ∷ plain_byte q a ∷ []
decode q (c ∷ a ∷ b ∷ s) = elim (if c == b'%' then escape_value a b else none) [
  | some v ↦ v ∷ decode q s
  | none ↦ plain_byte q c ∷ decode q (a ∷ b ∷ s)
]

pub All-until_nul : (s : Bytes) → All (λ c. c ≢ 0) (until_nul s)
unfolding until_nul
All-until_nul [] = tt
All-until_nul (c ∷ s) = elim (Bool-cases (c == 0)) [
  | inl y ↦ rw y tt
  | inr n ↦ rw n ((λ e. ground arith), All-until_nul s)
]

-- In a terminated block the string ends at a zero, and the rest is whatever it is.
pub until_nul-split :
    (s rest : Bytes) → (rest' : Bytes) × (s ++ (0 ∷ rest) ≡ until_nul s ++ (0 ∷ rest'))
unfolding until_nul
until_nul-split [] rest = (rest, refl)
until_nul-split (c ∷ s) rest =
    let (r, e) = until_nul-split s rest in
    elim (Bool-cases (c == 0)) [
      | inl y ↦ (s ++ (0 ∷ rest), ground arith)
      | inr n ↦ (r, ground (arith, e))
    ]

-- The value of an escape that begins with `c`, if it is one
abbrev pub escape_at : ℕ → ℕ → ℕ → Option ℕ
escape_at c a b = if c == b'%' then escape_value a b else none

pub decode_escape :
    (q : Bool) (c a b : ℕ) (s : Bytes) {v : ℕ}
    → escape_at c a b ≡ some v
    → decode q (c ∷ a ∷ b ∷ s) ≡ v ∷ decode q s
unfolding decode
decode_escape q c a b s e = rw (e, decode)

pub decode_plain :
    (q : Bool) (c : ℕ) (s : Bytes)
    → ((a b : ℕ) (r : Bytes) → s ≡ a ∷ b ∷ r → escape_at c a b ≡ none)
    → decode q (c ∷ s) ≡ plain_byte q c ∷ decode q s
unfolding decode
decode_plain q c [] h = refl
decode_plain q c (a ∷ []) h = refl
decode_plain q c (a ∷ b ∷ r) h = rw (h a b r refl, decode)

pub length-decode : (q : Bool) (s : Bytes) → length (decode q s) ≤ length s
unfolding decode
length-decode q [] = omega arith
length-decode q (c ∷ []) = omega arith
length-decode q (c ∷ a ∷ []) = omega arith
length-decode q (c ∷ a ∷ b ∷ s) = ground (arith, length-decode q s, length-decode q (a ∷ b ∷ s))
