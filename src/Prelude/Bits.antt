-- ===== src/Prelude/Bits.antt =====
-- `a | r` is a sum where the low bits of `a` that `r` occupies are clear.
use Prim.Native.Nat.{digits, bit_or, bit_or-bitwise}
use native.Mathlib.Nat.{pow-suc, le_refl}
use dln_node_knots.Prelude.{
  ℕ, zero, suc, ◌+◌, ◌*◌, ◌/◌, ◌^◌, ◌≤◌, ◌<◌, max, ◌≡◌, refl, ◌∙◌, arith, ap,
}

-- `digits` is the recursion behind `bit_or`: one binary digit for each unit of fuel.
digits-add :
    (fuel k q a r : ℕ) → a ≡ q * 2 ^ k → r < 2 ^ k → a ≤ fuel → digits (λ b. b) max fuel a r ≡ a + r
digits-add zero k q zero r e fits le = omega arith
digits-add zero k q (suc a) r e fits le = absurd (omega arith)
digits-add (suc fuel) k q zero r e fits le = omega arith
digits-add (suc fuel) zero q (suc a) r e fits le = omega (
  arith,
  digits-add fuel zero (suc a / 2) (suc a / 2) (r / 2) (omega arith) (omega arith) (omega arith),
)
digits-add (suc fuel) (suc k) q (suc a) r e fits le =
    let doubled : suc a ≡ 2 * (q * 2 ^ k) = omega (arith, ap (λ (t : ℕ). q * t) (pow-suc 2 k)) in
    omega (
      arith,
      digits-add fuel k q (suc a / 2) (r / 2) (omega arith) (omega (arith, pow-suc 2 k))
          (omega arith),
    )

pub bit_or-add : (k q r : ℕ) → r < 2 ^ k → bit_or (q * 2 ^ k) r ≡ q * 2 ^ k + r
bit_or-add k q r h =
    bit_or-bitwise (q * 2 ^ k) r ∙ digits-add (q * 2 ^ k) k q (q * 2 ^ k) r refl h (le_refl _)
