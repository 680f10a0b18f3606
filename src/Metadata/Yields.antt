-- ===== src/Metadata/Yields.antt =====
-- A step that has a result, with what holds of the result.
use tweaktool.Common.{◌≡◌, refl, ◌∙◌, ap, subst, Option, none, some, ◌>>=◌}
use tweaktool.Convert.Coerce.{some_eq, none≢some}

abbrev pub Yields : {A : Type 0} → (A → Type 0) → Option A → Type 0
Yields {A} P o = (a : A) × (o ≡ some a) × P a

pub yields : {A : Type 0} {P : A → Type 0} (a : A) → P a → Yields P (some a)
yields a h = (a, refl, h)

pub Yields-bind :
    {A B : Type 0} {P : A → Type 0} {Q : B → Type 0} (o : Option A) (f : A → Option B)
    → Yields P o
    → ((a : A) → P a → Yields Q (f a))
    → Yields Q (o >>= f)
Yields-bind o f (a, e, h) k = let r = k a h in (r.0, ap (λ (x : Option _). x >>= f) e ∙ r.1, r.2)

pub Yields-imp :
    {A : Type 0} {P Q : A → Type 0} (o : Option A) → ((a : A) → P a → Q a) → Yields P o → Yields Q o
Yields-imp o f (a, e, h) = (a, e, f a h)

-- What holds of the result, if there is one.
abbrev pub Ensures : {A : Type 0} → (A → Type 0) → Option A → Type 0
Ensures {A} P o = (a : A) → o ≡ some a → P a

pub ensures : {A : Type 0} (P : A → Type 0) (a : A) → P a → Ensures P (some a)
ensures P a h x e = subst P (some_eq e) h

pub Ensures-bind :
    {A B : Type 0} {Q : B → Type 0} (o : Option A) (f : A → Option B)
    → ((a : A) → Ensures Q (f a))
    → Ensures Q (o >>= f)
Ensures-bind none f h x e = absurd (none≢some e)
Ensures-bind (some a) f h x e = h a x e

pub Yields-and :
    {A : Type 0} {P Q : A → Type 0} (o : Option A)
    → Yields P o
    → Ensures Q o
    → Yields (λ (a : A). P a × Q a) o
Yields-and o (a, e, h) k = (a, e, (h, k a e))
