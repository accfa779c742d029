-- ===== src/Ldk/Wait.antt =====
-- `wait_for_outbound_payment` of src/lightning/ldk_service.rs: it polls the payments of the node
-- every 100 milliseconds until the payment has an outcome or the timeout has passed.
pub mod Step
pub mod Terminates
pub mod Sound
use dln_node_knots.Prelude.{
  ℕ, zero, suc, ◌+◌, ◌-◌, ◌*◌, ◌/◌, ◌^◌, Bool, true, false, ◌&&◌, Option, none, some, List, ltb,
  if◌then◌else◌, u64_size, unwrap_or, map_option, and_then,
}
use dln_node_knots.Prelude.Select.{find_by}
use dln_node_knots.Prelude.Outcome.{
  Outcome, ok, err, out_of_fuel, ok_or, to_option, ◌>>=◌ as ◌>>=ᵒ◌,
}
use dln_node_knots.Prelude.Act.{Act, lift, pure, fail, ◌>>=◌}
use dln_node_knots.Text.{Bytes, Text, codes, text_eq}
use dln_node_knots.Text.Number.{from_str_radix}
use dln_node_knots.Hex.{hex_string}
use dln_node_knots.Node.Types.{
  PaymentDetails, PaymentStatus, outbound, pending, succeeded, failed, PaymentKind, onchain, bolt11,
  bolt11_jit, bolt12_offer, bolt12_refund, spontaneous,
}
use dln_node_knots.Ldk.{LdkService, World, call}
use dln_node_knots.Ldk.Errors.{LdkServiceError, payment_failed}
use dln_node_knots.Ldk.History.{same_direction}

pub record LdkPaymentResult : Type 0 where
  pub preimage : Text
  pub fees_paid_msat : Option ℕ

unfoldable pub preimage_of : PaymentKind → Option Bytes
preimage_of (bolt11 _ preimage) = preimage
preimage_of (bolt11_jit _ preimage) = preimage
preimage_of (spontaneous _ preimage) = preimage
preimage_of (bolt12_offer _ preimage) = preimage
preimage_of (bolt12_refund _ preimage) = preimage
preimage_of onchain = none

abbrev pub paid_result : PaymentDetails → Option Bytes → Outcome LdkServiceError LdkPaymentResult
paid_result p none = err (payment_failed (codes "payment succeeded but preimage missing"))
paid_result p (some preimage) =
    ok (record { preimage = hex_string preimage; fees_paid_msat = p.fee_paid_msat })

-- The outcome that a payment has, if it has one yet.
abbrev pub outcome_by :
    PaymentDetails → PaymentStatus → Option (Outcome LdkServiceError LdkPaymentResult)
outcome_by p succeeded = some (paid_result p (preimage_of p.kind))
outcome_by p failed = some (err (payment_failed (codes "payment marked failed")))
outcome_by p pending = none

unfoldable pub is_sent : Bytes → PaymentDetails → Bool
is_sent id p = text_eq p.id id && same_direction p.direction outbound

-- What one poll finds.
unfoldable pub poll_outcome :
    Bytes → List PaymentDetails → Option (Outcome LdkServiceError LdkPaymentResult)
poll_outcome id listed = and_then (find_by (is_sent id) listed) (λ p. outcome_by p p.status)

abbrev pub timeout_error : LdkServiceError
timeout_error = payment_failed (codes "timeout waiting for payment outcome")

-- 100 milliseconds, and a second, in nanoseconds.
abbrev pub poll_pause : ℕ
poll_pause = 100_000_000

abbrev pub nanos_per_sec : ℕ
nanos_per_sec = 1_000_000_000

-- `DLN_PAYMENT_TIMEOUT_SECS`, or ten minutes.
unfoldable pub timeout_secs : Option Text → ℕ
timeout_secs variable =
    unwrap_or (and_then variable (λ v. to_option (from_str_radix 10 u64_size v))) 600

-- The rounds that fit in the timeout, and two more.
unfoldable pub rounds_for : ℕ → ℕ
rounds_for timeout = suc (timeout / poll_pause + 1)

module _ {S : Type 0} (ldk : LdkService S) where
  -- The loop, with the number of rounds that it may take.
  unfoldable pub wait_loop :
      ℕ → Bytes → ℕ → ℕ → World S → Outcome LdkServiceError LdkPaymentResult × World S
  wait_loop zero id start timeout w = (out_of_fuel, w)
  wait_loop (suc rounds) id start timeout w =
      let (listed, s1) = ldk.node.list_payments w.node in
      elim (poll_outcome id listed) [
        | some outcome ↦ (outcome, record w { node = s1 })
        | none ↦
            let (now, s2) = ldk.node.instant s1 in
            elim (ltb timeout (now - start)) [
              | true ↦ (err timeout_error, record w { node = s2 })
              | false ↦
                  let (_, s3) = ldk.node.sleep poll_pause s2 in
                  wait_loop rounds id start timeout (record w { node = s3 })
            ]
      ]

  unfoldable pub wait_for_outbound_payment : Bytes → Act (World S) LdkServiceError LdkPaymentResult
  wait_for_outbound_payment id = do
    variable ← call (ldk.node.env_var (codes "DLN_PAYMENT_TIMEOUT_SECS"))
    start ← call ldk.node.instant
    wait_loop (rounds_for (timeout_secs variable * nanos_per_sec)) id start
        (timeout_secs variable * nanos_per_sec)
