-- ===== src/Chars/Table.antt =====
-- Facts about bytes, checked over all 256 values.
use lighttpd.Base.{
  ℕ, zero, suc, ◌%◌, ◌<◌, ◌≡◌, refl, ◌∙◌, inl, inr, Bool, true, false, not, arith, ◌==◌,
  if◌then◌else◌, ==→eq, Bool-cases,
}
use lighttpd.Chars.{light_isxdigit, int2hex, hex2int}

unfoldable pub passes : (ℕ → Bool) → ℕ → Bool
passes p zero = true
passes p (suc n) = if p n then passes p n else false

-- Every byte passes a test.
abbrev pub on_bytes : (ℕ → Bool) → Bool
on_bytes p = passes p 256

passes_lem : (p : ℕ → Bool) (n : ℕ) → passes p n ≡ true → (x : ℕ) → x < n → p x ≡ true
unfolding passes
passes_lem p zero h x lt = elim lt [ ]
passes_lem p (suc n) h x lt = elim (Bool-cases (x == n)) [
  | inl y ↦ ground (arith, ==→eq x n y)
  | inr other ↦ passes_lem p n (ground arith) x (ground arith)
]

pub of_bytes : (p : ℕ → Bool) → on_bytes p ≡ true → (x : ℕ) → x < 256 → p x ≡ true
of_bytes p h x lt = passes_lem p 256 h x lt

hex2int-int2hex_table : on_bytes (λ x. hex2int (int2hex x) == x % 16) ≡ true
unfolding passes hex2int int2hex
hex2int-int2hex_table = refl

pub int2hex-mod : (x : ℕ) → int2hex (x % 16) ≡ int2hex x
unfolding int2hex
int2hex-mod x = let e : x % 16 % 16 ≡ x % 16 = omega arith in rw e

-- Decoding a hex digit gives back the low four bits that it was made of.
pub hex2int-int2hex : (x : ℕ) → hex2int (int2hex x) ≡ x % 16
hex2int-int2hex x =
    rw (← int2hex-mod x)
      (==→eq _ _ (of_bytes _ hex2int-int2hex_table (x % 16) (omega arith)) ∙ omega arith)

eq_bool : Bool → Bool → Bool
eq_bool true b = b
eq_bool false b = not b

eq_bool_lem : (a b : Bool) → eq_bool a b ≡ true → a ≡ b
unfolding eq_bool
eq_bool_lem true true h = refl
eq_bool_lem true false h = cc
eq_bool_lem false true h = cc
eq_bool_lem false false h = refl

hex2int-light_isxdigit_table :
    on_bytes (λ c. eq_bool (light_isxdigit c) (not (hex2int c == 255))) ≡ true
unfolding passes hex2int light_isxdigit eq_bool
hex2int-light_isxdigit_table = refl

-- Of every byte, `light_isxdigit` holds exactly when `hex2int` does not refuse it.
pub hex2int-light_isxdigit : (c : ℕ) → c < 256 → light_isxdigit c ≡ not (hex2int c == 255)
hex2int-light_isxdigit c h = eq_bool_lem _ _ (of_bytes _ hex2int-light_isxdigit_table c h)
