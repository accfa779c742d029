-- ===== src/Prelude/Act.antt =====
-- A method that reads and writes shared state and may fail: `?` stops at the first failure and
-- keeps what was written before it.
use dln_node_knots.Prelude.Outcome.{Outcome, ok, err, panic, out_of_fuel}

abbrev pub Act {ℓ κ μ} : Type ℓ → Type κ → Type μ → Type (ℓ ⊔ κ ⊔ μ)
Act W E A = W → Outcome E A × W

module _ {ℓ κ μ ν} {W : Type ℓ} {E : Type κ} {A : Type μ} {B : Type ν} where
  abbrev pub follow : Outcome E A × W → (A → Act W E B) → Outcome E B × W
  follow (ok a, w) f = f a w
  follow (err e, w) f = (err e, w)
  follow (panic, w) f = (panic, w)
  follow (out_of_fuel, w) f = (out_of_fuel, w)

  infixl 5 ◌>>=◌ ◌>>◌
  abbrev pub ◌>>=◌ : Act W E A → (A → Act W E B) → Act W E B
  ◌>>=◌ m f w = follow (m w) f

  abbrev pub ◌>>◌ : Act W E A → Act W E B → Act W E B
  ◌>>◌ m n w = follow (m w) (λ _. n)

module _ {ℓ κ μ} {W : Type ℓ} {E : Type κ} {A : Type μ} where
  abbrev pub pure : A → Act W E A
  pure a w = (ok a, w)

  abbrev pub fail : E → Act W E A
  fail e w = (err e, w)

  abbrev pub lift : Outcome E A → Act W E A
  lift r w = (r, w)
