-- ===== src/Number/Hex.antt =====
-- `buffer_append_uint_hex` of src/buffer.c.
use mathlib.Core.Path.{subst}
use native.Mathlib.Nat.{pow-suc, div-div-eq-div-mul}
use lighttpd.Base.{
  ℕ, zero, suc, ◌+◌, ◌-◌, ◌*◌, ◌/◌, ◌%◌, ◌^◌, ◌≤◌, ◌<◌, ◌≡◌, refl, sym, ap, ◌∙◌, inl, inr, Bool,
  true, false, ◌&&◌, ◌||◌, [], ◌∷◌, ◌++◌, arith, leb, ◌==◌, if◌then◌else◌, ==→eq, Bool-cases,
  length, All,
}
use lighttpd.Memory.{ok, Bytes, size_mod, Allocator, store, memcpy}
use lighttpd.Buffer.{Buffer}
use lighttpd.Buffer.Holds.{Holds, Stores}
use lighttpd.Buffer.Room.{string_prepare_append_lem}
use lighttpd.Buffer.Write.{reserve_lem}
use lighttpd.Chars.{int2hex}
use lighttpd.Chars.Table.{passes, on_bytes, of_bytes, int2hex-mod}
use lighttpd.Memory.Blocks.{bind_ext}
use lighttpd.Memory.Shift.{shift}
use lighttpd.Number.{count_nibbles, write_nibbles, append_uint_hex}

-- The digits that the filling loop writes
unfoldable pub nibbles : ℕ → ℕ → Bytes
nibbles value zero = []
nibbles value (suc n) = int2hex (value / 2 ^ (4 * n)) ∷ nibbles value n

write_nibbles-memcpy :
    (m : Bytes) (i value n : ℕ) → write_nibbles m i value n ≡ memcpy m i (nibbles value n)
unfolding write_nibbles nibbles memcpy
write_nibbles-memcpy m i value zero = refl
write_nibbles-memcpy m i value (suc n) =
    bind_ext (store m i (int2hex (value / 2 ^ (4 * n)))) _ _
      (λ m'. write_nibbles-memcpy m' (i + 1) value n)

length-nibbles : (value n : ℕ) → length (nibbles value n) ≡ n
unfolding nibbles
length-nibbles value zero = refl
length-nibbles value (suc n) = ap suc (length-nibbles value n)

abbrev pub is_hex_digit : ℕ → Bool
is_hex_digit c = (leb b'0' c && leb c b'9') || (leb b'a' c && leb c b'f')

abbrev pub IsHexDigit : ℕ → Type 0
IsHexDigit c = is_hex_digit c ≡ true

abbrev pub digit_value : ℕ → ℕ
digit_value c = if leb c b'9' then c - b'0' else c - b'a' + 10

-- The number that hexadecimal digits stand for, read from the left
unfoldable pub hex_from : ℕ → Bytes → ℕ
hex_from acc [] = acc
hex_from acc (c ∷ s) = hex_from (acc * 16 + digit_value c) s

-- A nonempty string of hexadecimal digits, in lower case, that stands for a number
pub record IsHex (ds : Bytes) (val : ℕ) : Type 0 where
  pub digits : All IsHexDigit ds
  pub value : hex_from 0 ds ≡ val
  pub some_there : 0 < length ds

digits_table : on_bytes (λ x. is_hex_digit (int2hex x)) ≡ true
unfolding passes int2hex
digits_table = refl

values_table : on_bytes (λ x. digit_value (int2hex x) == x % 16) ≡ true
unfolding passes int2hex
values_table = refl

int2hex-IsHexDigit : (x : ℕ) → IsHexDigit (int2hex x)
int2hex-IsHexDigit x =
    subst IsHexDigit (int2hex-mod x)
      (of_bytes (λ y. is_hex_digit (int2hex y)) digits_table (x % 16) (omega arith))

digit_value-int2hex : (x : ℕ) → digit_value (int2hex x) ≡ x % 16
digit_value-int2hex x =
    ap digit_value (sym (int2hex-mod x))
    ∙ ==→eq _ _
        (of_bytes (λ y. digit_value (int2hex y) == y % 16) values_table (x % 16) (omega arith))
    ∙ omega arith

nibbles-IsHexDigit : (value n : ℕ) → All IsHexDigit (nibbles value n)
unfolding nibbles
nibbles-IsHexDigit value zero = tt
nibbles-IsHexDigit value (suc n) =
    (int2hex-IsHexDigit (value / 2 ^ (4 * n)), nibbles-IsHexDigit value n)

four_more : (n : ℕ) → 2 ^ (4 * suc n) ≡ 2 ^ (4 * n) * 16
four_more n =
    let e : 4 * suc n ≡ suc (suc (suc (suc (4 * n)))) = omega arith in
    rw e (
      omega (
        arith,
        pow-suc 2 (suc (suc (suc (4 * n)))),
        pow-suc 2 (suc (suc (4 * n))),
        pow-suc 2 (suc (4 * n)),
        pow-suc 2 (4 * n),
      ))

shift_more : (value n : ℕ) → value / 2 ^ (4 * suc n) ≡ value / 2 ^ (4 * n) / 16
shift_more value n = rw (four_more n) (sym (div-div-eq-div-mul value (2 ^ (4 * n)) 16))

-- Reading on from the bits above, the digits give the whole number.
hex_from-nibbles :
    (value n : ℕ) → hex_from (value / 2 ^ (4 * n)) (nibbles value n) ≡ value / 2 ^ (4 * 0)
unfolding hex_from nibbles
hex_from-nibbles value zero = refl
hex_from-nibbles value (suc n) =
    let d = value / 2 ^ (4 * n) in
    let e : value / 2 ^ (4 * suc n) * 16 + digit_value (int2hex d) ≡ d =
      omega (arith, shift_more value n, digit_value-int2hex d) in
    ap (λ (a : ℕ). hex_from a (nibbles value n)) e ∙ hex_from-nibbles value n

count_nibbles_step :
    (fuel copy shift : ℕ)
    → (copy / 2 ^ 8 == 0) ≡ false
    → count_nibbles (suc fuel) copy shift ≡ count_nibbles fuel (copy / 2 ^ 8) (shift + 2)
unfolding count_nibbles
count_nibbles_step fuel copy shift n = rw n

power_below : (k copy : ℕ) → 0 < copy / 256 → (0 < k → 256 ^ k ≤ copy / 256) → 256 ^ suc k ≤ copy
power_below zero copy p big = omega (arith, pow-suc 256 0)
power_below (suc k) copy p big = omega (arith, pow-suc 256 (suc k), big (omega arith))

-- The loop counts an even number of nibbles that hold the whole number.
count_nibbles_lem :
    (fuel copy shift : ℕ)
    → copy < 256 ^ suc fuel
    → (k : ℕ) × (count_nibbles (suc fuel) copy shift ≡ shift + 2 * suc k)
      × (copy < 256 ^ suc k)
      × (k ≤ fuel)
      × (0 < k → 256 ^ k ≤ copy)
unfolding count_nibbles
count_nibbles_lem zero copy shift lt =
    (0, ground (arith, pow-suc 256 0), lt, omega arith, λ p. absurd (omega arith))
count_nibbles_lem (suc fuel) copy shift lt = elim (Bool-cases (copy / 2 ^ 8 == 0)) [
  | inl y ↦ (
    0,
    ground (arith, pow-suc 256 0),
    omega (arith, ==→eq (copy / 2 ^ 8) 0 y),
    omega arith,
    λ p. absurd (omega arith),
  )
  | inr n ↦
      let (k, run, small, le, big) =
        count_nibbles_lem fuel (copy / 2 ^ 8) (shift + 2) (omega (arith, pow-suc 256 (suc fuel))) in
      (
        suc k,
        count_nibbles_step (suc fuel) copy shift n ∙ run ∙ omega arith,
        omega (arith, pow-suc 256 (suc k)),
        omega arith,
        λ p. power_below k copy (ground arith) big,
      )
]

even_power : (k : ℕ) → 2 ^ (4 * (2 * k)) ≡ 256 ^ k
even_power zero = refl
even_power (suc k) =
    let e : 2 * suc k ≡ suc (suc (2 * k)) = omega arith in
    rw e (omega (arith, four_more (suc (2 * k)), four_more (2 * k), even_power k, pow-suc 256 k))

div_small : (a b : ℕ) → a < b → a / b ≡ 0
div_small a b h = grind arith

value_of_nibbles :
    (value k : ℕ) → value < 256 ^ suc k → hex_from 0 (nibbles value (2 * suc k)) ≡ value
value_of_nibbles value k lt =
    let n = 2 * suc k in
    let z : value / 2 ^ (4 * n) ≡ 0 =
      ap (λ (p : ℕ). value / p) (even_power (suc k)) ∙ div_small value (256 ^ suc k) lt in
    ap (λ (a : ℕ). hex_from a (nibbles value n)) (sym z) ∙ hex_from-nibbles value n ∙ omega arith

module _ (h : Allocator) (ample : (n : ℕ) → h.grants n ≡ true) where
  -- With memory granted, where a buffer stores a string and its length fits a `size_t` with 17
  -- bytes more, `buffer_append_uint_hex` appends hexadecimal digits, `0` to `9` and `a` to `f`, that
  -- stand for the value of any `uintmax_t`, two for each byte, with no leading zero byte (one byte
  -- for zero).
  pub append_uint_hex_lem :
      {b : Buffer} (s : Bytes) (value : ℕ)
      → Stores b s
      → value < size_mod
      → length s + 17 < size_mod
      → (text : Bytes) × (k : ℕ) × IsHex text value
        × (length text ≡ 2 * suc k)
        × (0 < k → 256 ^ k ≤ value)
        × (b' : Buffer) × (append_uint_hex h b value ≡ ok b')
        × Holds b' (s ++ text)
  unfolding append_uint_hex
  append_uint_hex_lem {b} s value st lt q =
      let (k, run, small, le, big) = count_nibbles_lem 7 value 0 (omega arith) in
      let n = 2 * suc k in
      let text = nibbles value n in
      let len = length-nibbles value n in
      let run' : count_nibbles 8 value 0 ≡ length text = omega (arith, run, len) in
      let (b1, e, room) =
        string_prepare_append_lem h ample s (length text) st (omega (arith, len)) in
      let (b2, e2, _, m, e3, done) = reserve_lem text room (omega (arith, len)) in
      let w = write_nibbles-memcpy b2.ptr (length s) value n in
      (
        text,
        k,
        record {
          digits = nibbles-IsHexDigit value n;
          value = value_of_nibbles value k small;
          some_there = omega (arith, len);
        },
        len,
        big,
        record b2 { ptr = m },
        ground (arith, run', len, e, e2, w, e3),
        done,
      )
