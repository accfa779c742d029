-- ===== src/Ldk/Wait/Sound.antt =====
-- The outcomes of wait_for_outbound_payment (src/lightning/ldk_service.rs), against the payments
-- that the node lists.
use dln_node_knots.Prelude.{
  ℕ, zero, suc, ◌-◌, true, Option, none, some, List, ◌≡◌, ◌≢◌, refl, some_inj, subst, ap, sym, ◌∙◌,
  ◌⊎◌, arith, ltb, inl, inr, Bool-cases, Option-cases,
}
use dln_node_knots.Prelude.Select.{Has, find_by, find_by_sound}
use dln_node_knots.Prelude.Outcome.{Outcome, ok, err, panic, out_of_fuel}
use dln_node_knots.Text.{Bytes, codes}
use dln_node_knots.Text.Equality.{text_eq_iff}
use dln_node_knots.Hex.{hex_string}
use dln_node_knots.Node.Types.{PaymentDetails, outbound, PaymentStatus, pending, succeeded, failed}
use dln_node_knots.Ldk.{LdkService, World}
use dln_node_knots.Ldk.Errors.{LdkServiceError}
use dln_node_knots.Ldk.History.{same_direction}
use dln_node_knots.Ldk.Wait.{
  wait_loop, poll_outcome, wait_for_outbound_payment, timeout_error, LdkPaymentResult, preimage_of,
  is_sent, outcome_by, paid_result,
}
use dln_node_knots.Ldk.Wait.Step.{now, after_sleep, wait_loop_paid, wait_loop_late, wait_loop_again}
use dln_node_knots.Ldk.Wait.Terminates.{Clock, wait_for_outbound_payment-ends}

-- The payment of that id, as one that this node sent.
abbrev pub IsSent : Bytes → PaymentDetails → Type 0
IsSent id p = (p.id ≡ id) × (p.direction ≡ outbound)

-- An outcome, against the payments of one listing.
abbrev pub Reports : Bytes → List PaymentDetails → Outcome LdkServiceError LdkPaymentResult → Type 0
Reports id listed (ok r) =
    (p : PaymentDetails) × (preimage : Bytes) × Has p listed
    × IsSent id p
    × (p.status ≡ succeeded)
    × (preimage_of p.kind ≡ some preimage)
    × (r.preimage ≡ hex_string preimage)
    × (r.fees_paid_msat ≡ p.fee_paid_msat)
Reports id listed (err e) =
    (e ≡ timeout_error)
    ⊎ ((p : PaymentDetails) × Has p listed
        × IsSent id p
        × ((p.status ≡ failed) ⊎ ((p.status ≡ succeeded) × (preimage_of p.kind ≡ none))))
Reports id listed panic = ⊥
Reports id listed out_of_fuel = Unit {0}

is_sent-IsSent : (id : Bytes) (p : PaymentDetails) → is_sent id p ≡ true → IsSent id p
unfolding is_sent same_direction
is_sent-IsSent id p h = ground (arith, text_eq_iff p.id id)

outcome_by-Reports :
    (id : Bytes) (listed : List PaymentDetails) (p : PaymentDetails) (status : PaymentStatus)
    (preimage : Option Bytes)
    → p.status ≡ status
    → preimage_of p.kind ≡ preimage
    → Has p listed
    → IsSent id p
    → (r : Outcome LdkServiceError LdkPaymentResult) → outcome_by p status ≡ some r
    → Reports id listed r
outcome_by-Reports id listed p pending preimage st pr h sent r e = cc
outcome_by-Reports id listed p failed preimage st pr h sent r e =
    subst (Reports id listed) (some_inj e) (inr (p, h, sent, inl st))
outcome_by-Reports id listed p succeeded none st pr h sent r e =
    subst (Reports id listed) (ap (paid_result p) (sym pr) ∙ some_inj e)
      (inr (p, h, sent, inr (st, pr)))
outcome_by-Reports id listed p succeeded (some preimage) st pr h sent r e =
    subst (Reports id listed) (ap (paid_result p) (sym pr) ∙ some_inj e)
      (p, preimage, h, sent, st, pr, refl, refl)

poll_outcome-Reports :
    (id : Bytes) (listed : List PaymentDetails) (r : Outcome LdkServiceError LdkPaymentResult)
    → poll_outcome id listed ≡ some r
    → Reports id listed r
unfolding poll_outcome
poll_outcome-Reports id listed r e = elim (Option-cases (find_by (is_sent id) listed)) [
  | inl missing ↦ ground arith
  | inr (p, found) ↦
      let (h, sent) = find_by_sound (is_sent id) listed p found in
      outcome_by-Reports id listed p p.status (preimage_of p.kind) refl refl h
        (is_sent-IsSent id p sent) r (ground arith)
]

module _ {S : Type 0} (ldk : LdkService S) where
  wait_loop-Reports :
      (rounds : ℕ) (id : Bytes) (start timeout : ℕ) (w : World S)
      → (s : S) × Reports id
          (ldk.node.list_payments s).0
          (wait_loop ldk rounds id start timeout w).0
  wait_loop-Reports zero id start timeout w = (w.node, unfold wait_loop in tt)
  wait_loop-Reports (suc rounds) id start timeout w =
      let listed = (ldk.node.list_payments w.node).0 in
      elim (Option-cases (poll_outcome id listed)) [
        | inr (r, e) ↦ (
          w.node,
          rw (wait_loop_paid ldk rounds id start timeout w r e)
              (poll_outcome-Reports id listed r e),
        )
        | inl e ↦ elim (Bool-cases (ltb timeout (now ldk rounds id start timeout w - start))) [
          | inl late ↦ (w.node, rw (wait_loop_late ldk rounds id start timeout w e late) (inl refl))
          | inr early ↦ rw (wait_loop_again ldk rounds id start timeout w e early) (
              wait_loop-Reports rounds id start timeout
                (record w { node = after_sleep ldk rounds id start timeout w }))
        ]
      ]

  pub wait_for_outbound_payment-Reports :
      (id : Bytes) (w : World S)
      → (s : S) × Reports id (ldk.node.list_payments s).0 (wait_for_outbound_payment ldk id w).0
  unfolding wait_for_outbound_payment
  wait_for_outbound_payment-Reports id w = wait_loop-Reports _ id _ _ _

  -- The outcome of a wait that was not cut off, against the payments of some listing.
  abbrev pub Settles : Bytes → Outcome LdkServiceError LdkPaymentResult → Type 0
  Settles id out_of_fuel = ⊥
  Settles id r = (s : S) × Reports id (ldk.node.list_payments s).0 r

  Reports-Settles :
      (id : Bytes) (r : Outcome LdkServiceError LdkPaymentResult)
      → r ≢ out_of_fuel
      → (s : S) × Reports id (ldk.node.list_payments s).0 r
      → Settles id r
  Reports-Settles id out_of_fuel h reported = absurd (h refl)
  Reports-Settles id _ h reported = reported

  -- On such a machine the wait returns; and for some listing of the node's payments: a success
  -- has the preimage, in hexadecimal, and the fee of a listed payment with the id, outbound and
  -- succeeded; an error is the timeout, or a listed payment with the id, outbound, has failed or
  -- has succeeded with no preimage.
  pub wait_for_outbound_payment-Settles :
      Clock ldk.node
      → (id : Bytes) (w : World S) → Settles id (wait_for_outbound_payment ldk id w).0
  wait_for_outbound_payment-Settles clock id w =
      Reports-Settles id (wait_for_outbound_payment ldk id w).0
        (wait_for_outbound_payment-ends ldk clock id w) (wait_for_outbound_payment-Reports id w)

-- The states that a wait goes through, a listing at the start of each round: from one round to the
-- next it reads the clock and sleeps for 100 milliseconds.
pub data Polls {S : Type 0} (ldk : LdkService S) : S → S → Type 0 where
  this_round : (s : S) → Polls ldk s s
  next_round :
      (s t : S)
      → Polls ldk (ldk.node.sleep 100_000_000 (ldk.node.instant (ldk.node.list_payments s).1).1).1 t
      → Polls ldk s t

-- A wait from `w` that ended with a success at `v`: the last listing reports the payment.
pub record Polled {S : Type 0} (ldk : LdkService S) (id : Bytes) (w v : World S)
    (p : LdkPaymentResult) : Type 0 where
  pub last : S
  pub polls : Polls ldk w.node last
  pub reported : Reports id (ldk.node.list_payments last).0 (ok p)
  pub left : v ≡ record w { node = (ldk.node.list_payments last).1 }

module _ {S : Type 0} (ldk : LdkService S) where
  wait_loop-Polled :
      (rounds : ℕ) (id : Bytes) (start timeout : ℕ) (w v : World S) (p : LdkPaymentResult)
      → wait_loop ldk rounds id start timeout w ≡ (ok p, v)
      → Polled ldk id w v p
  wait_loop-Polled zero id start timeout w v p h = unfold wait_loop in cc h
  wait_loop-Polled (suc rounds) id start timeout w v p h =
      let listed = (ldk.node.list_payments w.node).0 in
      elim (Option-cases (poll_outcome id listed)) [
        | inr (r, e) ↦
            let ended = sym (wait_loop_paid ldk rounds id start timeout w r e) ∙ h in
            record {
              last = w.node;
              polls = this_round w.node;
              reported =
                  subst (Reports id listed) (ap (λ q. q.0) ended)
                    (poll_outcome-Reports id listed r e);
              left = sym (ap (λ q. q.1) ended);
            }
        | inl e ↦ elim (Bool-cases (ltb timeout (now ldk rounds id start timeout w - start))) [
          | inl late ↦ absurd (cc (sym (wait_loop_late ldk rounds id start timeout w e late) ∙ h))
          | inr early ↦
              let u = record w { node = after_sleep ldk rounds id start timeout w } in
              let rest =
                wait_loop-Polled rounds id start timeout u v p
                  (sym (wait_loop_again ldk rounds id start timeout w e early) ∙ h) in
              record {
                last = rest.last;
                polls = next_round w.node rest.last rest.polls;
                reported = rest.reported;
                left = rest.left;
              }
        ]
      ]

  -- The state in which the loop starts: the timeout and the clock have been read.
  abbrev pub wait_start : S → S
  wait_start s = (ldk.node.instant (ldk.node.env_var (codes "DLN_PAYMENT_TIMEOUT_SECS") s).1).1

  pub wait_for_outbound_payment-Polled :
      (id : Bytes) (w v : World S) (p : LdkPaymentResult)
      → wait_for_outbound_payment ldk id w ≡ (ok p, v)
      → Polled ldk id (record w { node = wait_start w.node }) v p
  unfolding wait_for_outbound_payment
  wait_for_outbound_payment-Polled id w v p h =
      wait_loop-Polled _ id _ _ (record w { node = wait_start w.node }) v p h
