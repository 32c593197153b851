-- ===== src/Memory/Blocks.antt =====
-- What the accesses of a block do, with the block written us what stands before and after.
use lighttpd.Base.{
  ℕ, zero, suc, ◌+◌, ◌≡◌, refl, sym, ap, ◌∙◌, [], ◌∷◌, ◌++◌, append_assoc, arith, length,
  length-append,
}
use lighttpd.Memory.{
  Outcome, ok, aborted, fault, ◌>>=◌, Bytes, Allocator, fresh, load, store, memcpy,
}

pub length-fresh : (h : Allocator) (i n : ℕ) → length (fresh h i n) ≡ n
length-fresh h i zero = refl
length-fresh h i (suc n) = ap suc (length-fresh h (i + 1) n)

pub load_at : (us vs : Bytes) (x : ℕ) → load (us ++ (x ∷ vs)) (length us) ≡ ok x
unfolding load
load_at [] vs x = refl
load_at (a ∷ us) vs x = load_at us vs x

pub store_at :
    (us vs : Bytes) (x v : ℕ) → store (us ++ (x ∷ vs)) (length us) v ≡ ok (us ++ (v ∷ vs))
unfolding store
store_at [] vs x v = refl
store_at (a ∷ us) vs x v = rw (store_at us vs x v)

-- A copy over us many old bytes.
pub memcpy_at :
    (us old s vs : Bytes)
    → length old ≡ length s
    → memcpy (us ++ (old ++ vs)) (length us) s ≡ ok (us ++ (s ++ vs))
unfolding memcpy
memcpy_at us [] [] vs e = refl
memcpy_at us [] (x ∷ s) vs e = absurd (omega arith)
memcpy_at us (o ∷ old) [] vs e = absurd (omega arith)
memcpy_at us (o ∷ old) (x ∷ s) vs e = rw (store_at us (old ++ vs) o x) (
    let p : us ++ (x ∷ (old ++ vs)) ≡ (us ++ (x ∷ [])) ++ (old ++ vs) =
      sym (append_assoc us (x ∷ []) (old ++ vs)) in
    let l : length us + 1 ≡ length (us ++ (x ∷ [])) = omega (arith, length-append us (x ∷ [])) in
    rw (p, l)
      (memcpy_at (us ++ (x ∷ [])) old s vs (omega arith)
        ∙ ap ok (append_assoc us (x ∷ []) (s ++ vs))))

pub bind_ext {ℓ κ} :
    {A : Type ℓ} {B : Type κ} (m : Outcome A) (f g : A → Outcome B)
    → ((a : A) → f a ≡ g a)
    → (m >>= f) ≡ (m >>= g)
bind_ext (ok a) f g e = e a
bind_ext aborted f g e = refl
bind_ext fault f g e = refl

pub bind_assoc {ℓ κ μ} :
    {A : Type ℓ} {B : Type κ} {C : Type μ} (m : Outcome A) (f : A → Outcome B) (g : B → Outcome C)
    → ((m >>= f) >>= g) ≡ (m >>= λ a. f a >>= g)
bind_assoc (ok a) f g = refl
bind_assoc aborted f g = refl
bind_assoc fault f g = refl

pub memcpy-append :
    (m : Bytes) (i : ℕ) (s t : Bytes)
    → memcpy m i (s ++ t) ≡ (memcpy m i s >>= λ m'. memcpy m' (i + length s) t)
unfolding memcpy
memcpy-append m i [] t = ap (λ (j : ℕ). memcpy m j t) (omega arith)
memcpy-append m i (x ∷ s) t =
    bind_ext (store m i x) _ _ (λ m'.
      memcpy-append m' (i + 1) s t
      ∙ bind_ext (memcpy m' (i + 1) s) _ _ (λ m''. ap (λ (j : ℕ). memcpy m'' j t) (omega arith)))
    ∙ sym (bind_assoc (store m i x) (λ m'. memcpy m' (i + 1) s) _)
