-- ===== src/Memory/Ends.antt =====
-- What holds of a run if it returns.
use lighttpd.Base.{Bool, true, false, if◌then◌else◌}
use lighttpd.Memory.{Outcome, ok, aborted, fault, ◌>>=◌}

abbrev pub IfOk {ℓ} : {A : Type ℓ} → (A → Type 0) → Outcome A → Type 0
IfOk P (ok a) = P a
IfOk P aborted = Unit
IfOk P fault = Unit

pub bind-IfOk {ℓ κ} :
    {A : Type ℓ} {B : Type κ} (P : B → Type 0) (m : Outcome A) (f : A → Outcome B)
    → ((a : A) → IfOk P (f a))
    → IfOk P (m >>= f)
bind-IfOk P (ok a) f k = k a
bind-IfOk P aborted f k = tt
bind-IfOk P fault f k = tt

pub if-IfOk {ℓ} :
    {A : Type ℓ} (P : A → Type 0) (b : Bool) (x y : Outcome A)
    → IfOk P x
    → IfOk P y
    → IfOk P (if b then x else y)
if-IfOk P true x y k l = k
if-IfOk P false x y k l = l

pub bind-IfOk_after {ℓ κ} :
    {A : Type ℓ} {B : Type κ} (Q : A → Type 0) (P : B → Type 0) (m : Outcome A) (f : A → Outcome B)
    → IfOk Q m
    → ((a : A) → Q a → IfOk P (f a))
    → IfOk P (m >>= f)
bind-IfOk_after Q P (ok a) f q k = k a q
bind-IfOk_after Q P aborted f q k = tt
bind-IfOk_after Q P fault f q k = tt
