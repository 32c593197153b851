-- ===== src/Case.antt =====
-- Letter case in src/buffer.c: `buffer_to_lower`, `buffer_to_upper`, `buffer_caseless_compare`.
pub mod Compare
pub mod Convert
use Prim.Native.Nat.{bit_and, bit_or}
use lighttpd.Base.{ℕ, zero, suc, ◌-◌, Bool, ◌&&◌, ◌||◌, [], ◌∷◌, ltb, leb, ◌==◌, if◌then◌else◌}
use lighttpd.Memory.{Outcome, ok, fault, ◌>>=◌, Bytes}
use lighttpd.Buffer.{Buffer}
use lighttpd.Number.{ℤ, pos, negsuc}

abbrev pub is_upper : ℕ → Bool
is_upper c = leb b'A' c && leb c b'Z'

-- `if (c >= 'A' && c <= 'Z') c |= 32`
unfoldable pub lowered : ℕ → ℕ
lowered c = if is_upper c then bit_or c 32 else c

-- `if (c >= 'A' && c <= 'Z') c &= ~0x20`
unfoldable pub raised : ℕ → ℕ
raised c = if is_upper c then bit_and c 223 else c

-- The loop over the first `n` bytes of a block
unfoldable pub change_each : (ℕ → ℕ) → ℕ → Bytes → Outcome Bytes
change_each f zero m = ok m
change_each f (suc n) [] = fault
change_each f (suc n) (c ∷ m) = change_each f n m >>= λ m'. ok (f c ∷ m')

unfoldable pub to_lower : Buffer → Outcome Buffer
to_lower b = change_each lowered b.used b.ptr >>= λ m. ok (record b { ptr = m })

unfoldable pub to_upper : Buffer → Outcome Buffer
to_upper b = change_each raised b.used b.ptr >>= λ m. ok (record b { ptr = m })

-- `((int)ca) - ((int)cb)`
abbrev pub difference : ℕ → ℕ → ℤ
difference ca cb = if ltb ca cb then negsuc (cb - ca - 1) else pos (ca - cb)

-- `buffer_caseless_compare`; the lengths are those of the lists.
unfoldable pub caseless_compare : Bytes → Bytes → ℤ
caseless_compare [] [] = pos 0
caseless_compare [] (cb ∷ b) = negsuc 0
caseless_compare (ca ∷ a) [] = pos 1
caseless_compare (ca ∷ a) (cb ∷ b) =
    if ca == cb || lowered ca == lowered cb
    then caseless_compare a b
    else difference (lowered ca) (lowered cb)
