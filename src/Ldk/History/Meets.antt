-- ===== src/Ldk/History/Meets.antt =====
-- What a query of list_payments_filtered (src/lightning/ldk_service.rs) asks of a payment.

use dln_node_knots.Prelude.{
  ℕ, ◌≤◌, true, false, not, ◌&&◌, Bool, Option, none, some, ◌≡◌, refl, ◌↔◌, arith, if◌then◌else◌,
  unwrap_or, some_inj, subst,
}
use dln_node_knots.Node.Types.{
  PaymentDetails, PaymentDirection, PaymentStatus, pending, succeeded, failed, PaymentKind, bolt11,
  bolt11_jit, bolt12_offer, bolt12_refund, spontaneous, onchain,
}
use dln_node_knots.Ldk.History.{
  Query, PaymentMethod, by_bolt11, by_bolt12, by_keysend, admits, same_direction, is_pending,
  method_matches, too_early, too_late, wrong_direction, wrong_method,
}

-- What a query asks of a payment.
abbrev pub Bounded : Option ℕ → (ℕ → Type 0) → Type 0
Bounded none P = Unit {0}
Bounded (some b) P = P b

-- The kinds of payment that a method names.
abbrev pub IsBy : PaymentMethod → PaymentKind → Type 0
IsBy by_bolt11 (bolt11 h p) = Unit {0}
IsBy by_bolt11 (bolt11_jit h p) = Unit {0}
IsBy by_bolt12 (bolt12_offer h p) = Unit {0}
IsBy by_bolt12 (bolt12_refund h p) = Unit {0}
IsBy by_keysend (spontaneous h p) = Unit {0}
IsBy _ _ = ⊥

abbrev pub Meets : Query → PaymentDetails → Type 0
Meets q p =
    Bounded q.from (λ t. t ≤ p.latest_update_timestamp)
    × Bounded q.until (λ t. p.latest_update_timestamp ≤ t)
    × ((d : PaymentDirection) → q.direction ≡ some d → p.direction ≡ d)
    × ((m : PaymentMethod) → q.payment_method ≡ some m → IsBy m p.kind)
    × (p.status ≡ pending → q.unpaid ≡ some true)

direction_right :
    (wanted : Option PaymentDirection) (d : PaymentDirection)
    → (wrong_direction wanted d ≡ false) ↔ ((w : PaymentDirection) → wanted ≡ some w → d ≡ w)
unfolding same_direction
direction_right none d = (λ _ w e. cc, λ _. refl)
direction_right (some w) d =
    (λ h w' e. ground arith, λ h. let same : d ≡ w = h w refl in ground arith)

matches_iff : (m : PaymentMethod) (k : PaymentKind) → (method_matches m k ≡ true) ↔ IsBy m k
unfolding method_matches
matches_iff by_bolt11 (bolt11 h p) = (λ _. tt, λ _. refl)
matches_iff by_bolt11 (bolt11_jit h p) = (λ _. tt, λ _. refl)
matches_iff by_bolt11 (bolt12_offer h p) = (λ h. cc, λ h. absurd h)
matches_iff by_bolt11 (bolt12_refund h p) = (λ h. cc, λ h. absurd h)
matches_iff by_bolt11 (spontaneous h p) = (λ h. cc, λ h. absurd h)
matches_iff by_bolt11 onchain = (λ h. cc, λ h. absurd h)
matches_iff by_bolt12 (bolt11 h p) = (λ h. cc, λ h. absurd h)
matches_iff by_bolt12 (bolt11_jit h p) = (λ h. cc, λ h. absurd h)
matches_iff by_bolt12 (bolt12_offer h p) = (λ _. tt, λ _. refl)
matches_iff by_bolt12 (bolt12_refund h p) = (λ _. tt, λ _. refl)
matches_iff by_bolt12 (spontaneous h p) = (λ h. cc, λ h. absurd h)
matches_iff by_bolt12 onchain = (λ h. cc, λ h. absurd h)
matches_iff by_keysend (bolt11 h p) = (λ h. cc, λ h. absurd h)
matches_iff by_keysend (bolt11_jit h p) = (λ h. cc, λ h. absurd h)
matches_iff by_keysend (bolt12_offer h p) = (λ h. cc, λ h. absurd h)
matches_iff by_keysend (bolt12_refund h p) = (λ h. cc, λ h. absurd h)
matches_iff by_keysend (spontaneous h p) = (λ _. tt, λ _. refl)
matches_iff by_keysend onchain = (λ h. cc, λ h. absurd h)

method_right :
    (wanted : Option PaymentMethod) (k : PaymentKind)
    → (wrong_method wanted k ≡ false) ↔ ((m : PaymentMethod) → wanted ≡ some m → IsBy m k)
method_right none k = (λ _ m e. cc, λ _. refl)
method_right (some m) k = (
  λ h m' e. subst (λ n. IsBy n k) (some_inj e) ((matches_iff m k).0 (ground (arith, h))),
  λ h. ground (arith, (matches_iff m k).1 (h m refl)),
)

paid_enough :
    (unpaid : Option Bool) (status : PaymentStatus)
    → ((not (unwrap_or unpaid false) && is_pending status) ≡ false)
      ↔ (status ≡ pending → unpaid ≡ some true)
unfolding is_pending
paid_enough none pending = (λ h e. cc, λ h. cc (h refl))
paid_enough (some true) pending = (λ h e. refl, λ h. refl)
paid_enough (some false) pending = (λ h e. cc, λ h. cc (h refl))
paid_enough unpaid succeeded = (λ h e. cc, λ h. ground arith)
paid_enough unpaid failed = (λ h e. cc, λ h. ground arith)

not_early : (from : Option ℕ) (t : ℕ) → (too_early from t ≡ false) ↔ Bounded from (λ b. b ≤ t)
not_early none t = (λ _. tt, λ _. refl)
not_early (some b) t = (λ h. ground arith, λ h. ground arith)

not_late : (until : Option ℕ) (t : ℕ) → (too_late until t ≡ false) ↔ Bounded until (λ b. t ≤ b)
not_late none t = (λ _. tt, λ _. refl)
not_late (some b) t = (λ h. ground arith, λ h. ground arith)

five_tests :
    (a b c d e : Bool)
    → ((if a
          then false
          else if b
          then false
          else if c
          then false
          else if d
          then false
          else if e
          then false
          else true)
        ≡ true)
      ↔ ((a ≡ false) × (b ≡ false) × (c ≡ false) × (d ≡ false) × (e ≡ false))
five_tests a b c d e = (λ h. ground arith, λ h. ground arith)

-- The filter admits exactly the payments that meet the query: within the time bounds, inclusive,
-- of the direction and the method if one is given, and pending only where `unpaid` is true.
pub admits_iff : (q : Query) (p : PaymentDetails) → (admits q p ≡ true) ↔ Meets q p
unfolding admits
admits_iff q p =
    let early = not_early q.from p.latest_update_timestamp in
    let late = not_late q.until p.latest_update_timestamp in
    let direction = direction_right q.direction p.direction in
    let method = method_right q.payment_method p.kind in
    let paid = paid_enough q.unpaid p.status in
    let tests =
      five_tests (too_early q.from p.latest_update_timestamp)
        (too_late q.until p.latest_update_timestamp) (wrong_direction q.direction p.direction)
        (wrong_method q.payment_method p.kind)
        (not (unwrap_or q.unpaid false) && is_pending p.status) in
    (
      λ h.
          let (a, b, c, d, e) = tests.0 h in
          (early.0 a, late.0 b, direction.0 c, method.0 d, paid.0 e),
      λ m. tests.1 (early.1 m.0, late.1 m.1, direction.1 m.2, method.1 m.3, paid.1 m.4),
    )
