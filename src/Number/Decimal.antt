-- ===== src/Number/Decimal.antt =====
-- The text that `utostr` and `itostr` write: decimal digits with no leading zero, in the end of
-- the array.
use mathlib.Core.Path.{subst}
use native.Mathlib.Nat.{pow-suc}
use lighttpd.Base.{
  ℕ, zero, suc, ◌+◌, ◌-◌, ◌*◌, ◌/◌, ◌%◌, ◌^◌, ◌≤◌, ◌<◌, ◌≡◌, refl, ap, ◌≢◌, inl, inr, [], ◌∷◌, ◌++◌,
  append_assoc, arith, ltb, Bool-cases, length, length-append, split_at, All,
}
use lighttpd.Memory.{ok, Bytes, store}
use lighttpd.Memory.Blocks.{store_at}
use lighttpd.Number.{utostr}

abbrev pub IsDigit : ℕ → Type 0
IsDigit c = (b'0' ≤ c) × (c ≤ b'9')

-- The number that digits stand for, read from the left
unfoldable pub value_from : ℕ → Bytes → ℕ
value_from acc [] = acc
value_from acc (c ∷ s) = value_from (acc * 10 + (c - b'0')) s

abbrev pub NoLeadingZero : Bytes → Type 0
NoLeadingZero [] = ⊥
NoLeadingZero (c ∷ []) = Unit
NoLeadingZero (c ∷ d ∷ s) = c ≢ b'0'

-- A canonical decimal text of a number
pub record IsDecimal (ds : Bytes) (val : ℕ) : Type 0 where
  pub digits : All IsDigit ds
  pub value : value_from 0 ds ≡ val
  pub canonical : NoLeadingZero ds

-- The digits of `val`, at most so many, stand in front of `tail`, with nonzero digits first if there are any.
pub record Digits (m : Bytes) (cur val : ℕ) (tail : Bytes) (most : ℕ) : Type 0 where
  pub front : Bytes
  pub ds : Bytes
  pub runs : utostr m cur val ≡ ok (front ++ (ds ++ tail), length front)
  pub fits : length front + length ds ≡ cur
  pub short : length ds ≤ most
  pub decimal : IsDecimal ds val
  pub leads : 0 < val → (c : ℕ) × (r : Bytes) × (ds ≡ c ∷ r) × (c ≢ b'0')

value_from-concat :
    (acc : ℕ) (ds : Bytes) (c : ℕ)
    → value_from acc (ds ++ (c ∷ [])) ≡ value_from acc ds * 10 + (c - b'0')
unfolding value_from
value_from-concat acc [] c = refl
value_from-concat acc (d ∷ ds) c = value_from-concat (acc * 10 + (d - b'0')) ds c

All-concat : (ds : Bytes) (c : ℕ) → All IsDigit ds → IsDigit c → All IsDigit (ds ++ (c ∷ []))
All-concat [] c h k = (k, tt)
All-concat (d ∷ ds) c h k = (h.0, All-concat ds c h.1 k)

canonical-concat :
    (c : ℕ) (r ds : Bytes) (d : ℕ) → ds ≡ c ∷ r → c ≢ b'0' → NoLeadingZero (ds ++ (d ∷ []))
canonical-concat c [] ds d e ne = rw e ne
canonical-concat c (x ∷ r) ds d e ne = rw e ne

pub last_split :
    (us : Bytes) (k : ℕ)
    → length us ≡ suc k
    → (vs : Bytes) × (x : ℕ) × (us ≡ vs ++ (x ∷ [])) × (length vs ≡ k)
last_split us k l =
    let (vs, x, ws, e, n) = split_at k us (omega (arith, l)) in
    let ws-nil : ws ≡ [] = ground (arith, ap length e, l, n, length-append vs (x ∷ ws)) in
    (vs, x, rw ws-nil at e, n)

pub store_last :
    (us tail : Bytes) (k d : ℕ) (vs : Bytes) (x : ℕ)
    → us ≡ vs ++ (x ∷ [])
    → length vs ≡ k
    → store (us ++ tail) k d ≡ ok (vs ++ (d ∷ tail))
store_last us tail k d vs x e n =
    rw (e, append_assoc vs (x ∷ []) tail)
      (subst (λ (j : ℕ). store (vs ++ (x ∷ tail)) j d ≡ ok (vs ++ (d ∷ tail))) n
        (store_at vs tail x d))

-- One digit is enough
Digits-one :
    (us tail : Bytes) (cur k val : ℕ)
    → length us ≡ suc cur
    → val < 10
    → Digits (us ++ tail) (suc cur) val tail (suc k)
unfolding utostr value_from
Digits-one us tail cur k val l lt =
    let (vs, x, e, n) = last_split us cur l in
    record {
      front = vs;
      ds = (b'0' + val % 10) ∷ [];
      runs = ground (arith, store_last us tail cur (b'0' + val % 10) vs x e n, n);
      fits = omega (arith, n);
      short = omega arith;
      decimal = record {
        digits = ((omega arith, omega arith), tt);
        value = omega arith;
        canonical = tt;
      };
      leads = λ p. (b'0' + val % 10, [], refl, omega arith);
    }

-- One digit more
Digits-more :
    (us tail : Bytes) (cur k val : ℕ)
    → length us ≡ suc cur
    → 0 < val / 10
    → ((vs : Bytes)
        → length vs ≡ cur
        → Digits (vs ++ ((b'0' + val % 10) ∷ tail)) cur (val / 10) ((b'0' + val % 10) ∷ tail) k)
    → Digits (us ++ tail) (suc cur) val tail (suc k)
unfolding utostr
Digits-more us tail cur k val l left ih =
    let d : ℕ = b'0' + val % 10 in
    let (vs, x, e, n) = last_split us cur l in
    let r = ih vs n in
    let (c, more, lead, ne) = r.leads left in
    record {
      front = r.front;
      ds = r.ds ++ (d ∷ []);
      runs =
          rw (append_assoc r.ds (d ∷ []) tail)
            (ground (arith, store_last us tail cur d vs x e n, left, r.runs));
      fits = omega (arith, r.fits, length-append r.ds (d ∷ []));
      short = omega (arith, r.short, length-append r.ds (d ∷ []));
      decimal = record {
        digits = All-concat r.ds d r.decimal.digits (omega arith, omega arith);
        value = omega (arith, value_from-concat 0 r.ds d, r.decimal.value);
        canonical = canonical-concat c more r.ds d lead ne;
      };
      leads = λ p. (c, more ++ (d ∷ []), rw lead refl, ne);
    }

-- A number below ten to the power of the room has its digits written, with no underflow of `cur`.
pub Digits-lem :
    (k cur : ℕ) (us tail : Bytes) (val : ℕ)
    → length us ≡ suc cur
    → k ≤ cur
    → val < 10 ^ suc k
    → Digits (us ++ tail) (suc cur) val tail (suc k)
Digits-lem zero cur us tail val l le lt =
    Digits-one us tail cur 0 val l (omega (arith, pow-suc 10 0))
Digits-lem (suc k) zero us tail val l le lt = absurd (omega arith)
Digits-lem (suc k) (suc cur) us tail val l le lt = elim (Bool-cases (ltb val 10)) [
  | inl y ↦ Digits-one us tail (suc cur) (suc k) val l (ground arith)
  | inr n ↦ Digits-more us tail (suc cur) (suc k) val l (ground arith) λ vs e.
      Digits-lem k cur vs ((b'0' + val % 10) ∷ tail) (val / 10) e (omega arith)
        (omega (arith, pow-suc 10 (suc k)))
]
