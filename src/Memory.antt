-- ===== src/Memory.antt =====
-- Blocks of memory as lists of bytes, and the ways in which a run of the program ends.
-- `force_assert` (buffer.h) ends the process; an access outside a block is a fault.
pub mod Blocks
pub mod Ends
pub mod Shift
use Prim.Native.Char.{code}
use Prim.Native.String.{String}
use lighttpd.Base.{ℕ, zero, suc, ◌+◌, ◌%◌, ◌^◌, Bool, true, false, List, [], ◌∷◌}

pub data Outcome {ℓ} (A : Type ℓ) : Type ℓ where
  ok : A → Outcome A
  aborted : Outcome A
  fault : Outcome A

infixl 5 ◌>>=◌ ◌>>◌
abbrev pub ◌>>=◌ {ℓ κ} : {A : Type ℓ} {B : Type κ} → Outcome A → (A → Outcome B) → Outcome B
ok a >>= f = f a
aborted >>= f = aborted
fault >>= f = fault

abbrev pub ◌>>◌ {ℓ} : {B : Type ℓ} → Outcome (Unit {0}) → Outcome B → Outcome B
m >> k = m >>= λ _. k

-- `force_assert(x)`
abbrev pub force_assert : Bool → Outcome (Unit {0})
force_assert true = ok tt
force_assert false = aborted

abbrev pub Bytes : Type 0
Bytes = List ℕ

abbrev pub size_mod : ℕ
size_mod = 2 ^ 64

-- `size_t` addition wraps around.
abbrev pub add_size : ℕ → ℕ → ℕ
add_size a b = (a + b) % size_mod

-- What the C library gives: whether a request for so many bytes is granted, and which bytes
-- new memory happens to hold at each offset.
pub record Allocator : Type 0 where
  pub grants : ℕ → Bool
  pub junk : ℕ → ℕ

-- `n` new bytes from an offset on
abbrev pub fresh : Allocator → ℕ → ℕ → Bytes
fresh h i zero = []
fresh h i (suc n) = h.junk i ∷ fresh h (i + 1) n

-- `p[i]` in a block
unfoldable pub load : Bytes → ℕ → Outcome ℕ
load [] i = fault
load (x ∷ m) zero = ok x
load (x ∷ m) (suc i) = load m i

-- `p[i] = v`
unfoldable pub store : Bytes → ℕ → ℕ → Outcome Bytes
store [] i v = fault
store (x ∷ m) zero v = ok (v ∷ m)
store (x ∷ m) (suc i) v = store m i v >>= λ m'. ok (x ∷ m')

-- The bytes of a literal, which is ASCII
abbrev pub codes : String → Bytes
codes String.[] = []
codes (String.◌∷◌ c s) = code c ∷ codes s

-- `memcpy(p + i, s, n)`, from a source outside the block
unfoldable pub memcpy : Bytes → ℕ → Bytes → Outcome Bytes
memcpy m i [] = ok m
memcpy m i (x ∷ s) = store m i x >>= λ m'. memcpy m' (i + 1) s
