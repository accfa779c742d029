-- ===== src/Prelude/Outcome.antt =====
-- `Result<A, E>`, with an outcome for a panic, and one for a loop that was cut off by its fuel.
use mathlib.Core.Path.{◌≡◌, refl, ap, sym, ◌∙◌}
use mathlib.Core.Logic.{◌⊎◌, inl, inr}
use mathlib.Core.Bool.{Bool, true, false}
use mathlib.Core.Option.{Option, none, some}

pub data Outcome {ℓ κ} (E : Type ℓ) (A : Type κ) : Type (ℓ ⊔ κ) where
  ok : A → Outcome E A
  err : E → Outcome E A
  panic out_of_fuel : Outcome E A

-- `?` on a pure result.
infixl 5 ◌>>=◌
abbrev pub ◌>>=◌ {ℓ κ μ} :
    {E : Type ℓ} {A : Type κ} {B : Type μ} → Outcome E A → (A → Outcome E B) → Outcome E B
ok a >>= f = f a
err e >>= f = err e
panic >>= f = panic
out_of_fuel >>= f = out_of_fuel

abbrev pub map_err {ℓ κ μ} :
    {E : Type ℓ} {F : Type κ} {A : Type μ} → (E → F) → Outcome E A → Outcome F A
map_err f (ok a) = ok a
map_err f (err e) = err (f e)
map_err f panic = panic
map_err f out_of_fuel = out_of_fuel

-- `o.ok_or(e)`.
abbrev pub ok_or {ℓ κ} : {E : Type ℓ} {A : Type κ} → Option A → E → Outcome E A
ok_or none e = err e
ok_or (some a) e = ok a

-- `r.ok()`, of a result that is a success or an error.
abbrev pub to_option {ℓ κ} : {E : Type ℓ} {A : Type κ} → Outcome E A → Option A
to_option (ok a) = some a
to_option (err e) = none
to_option panic = none
to_option out_of_fuel = none

pub to_option_ok {ℓ κ} :
    {E : Type ℓ} {A : Type κ} (r : Outcome E A) (a : A) → to_option r ≡ some a → r ≡ ok a
to_option_ok (ok b) a h = cc
to_option_ok (err e) a h = cc
to_option_ok panic a h = cc
to_option_ok out_of_fuel a h = cc

abbrev pub is_ok {ℓ κ} : {E : Type ℓ} {A : Type κ} → Outcome E A → Bool
is_ok (ok a) = true
is_ok (err e) = false
is_ok panic = false
is_ok out_of_fuel = false

abbrev ok_or_else {ℓ κ} : {E : Type ℓ} {A : Type κ} → A → Outcome E A → A
ok_or_else d (ok a) = a
ok_or_else d (err e) = d
ok_or_else d panic = d
ok_or_else d out_of_fuel = d

pub ok_unique {ℓ κ} :
    {E : Type ℓ} {A : Type κ} {a b : A} {r : Outcome E A} → r ≡ ok a → r ≡ ok b → a ≡ b
ok_unique {a} {r} e d = ap (ok_or_else a) (sym e ∙ d)

pub Outcome-cases {ℓ κ} :
    {E : Type ℓ} {A : Type κ} (r : Outcome E A) → (is_ok r ≡ false) ⊎ ((a : A) × (r ≡ ok a))
Outcome-cases (ok a) = inr (a, refl)
Outcome-cases (err e) = inl refl
Outcome-cases panic = inl refl
Outcome-cases out_of_fuel = inl refl

pub Outcome-all {ℓ κ} :
    {E : Type ℓ} {A : Type κ} (r : Outcome E A)
    → ((a : A) × (r ≡ ok a)) ⊎ ((e : E) × (r ≡ err e)) ⊎ (r ≡ panic) ⊎ (r ≡ out_of_fuel)
Outcome-all (ok a) = inl (a, refl)
Outcome-all (err e) = inr (inl (e, refl))
Outcome-all panic = inr (inr (inl refl))
Outcome-all out_of_fuel = inr (inr (inr refl))

module _ {ℓ κ μ} {E : Type ℓ} {A : Type κ} {B : Type μ} (f : A → Outcome E B) where
  -- The value that a successful chain has passed on.
  pub passed_on : (b : B) (m : Outcome E A) → (m >>= f) ≡ ok b → (a : A) × (m ≡ ok a) × (f a ≡ ok b)
  passed_on b (ok a) = λ h. (a, refl, h)
  passed_on b (err e) = λ h. cc
  passed_on b panic = λ h. cc
  passed_on b out_of_fuel = λ h. cc
