-- ===== src/Ldk/Wait/Terminates.antt =====
-- The number of rounds of wait_for_outbound_payment (src/lightning/ldk_service.rs), against its
-- timeout.
use dln_node_knots.Prelude.{
  ℕ, zero, suc, ◌+◌, ◌-◌, ◌*◌, ◌/◌, ◌≤◌, ◌<◌, false, some, ◌≡◌, ◌≢◌, List, arith, ltb, inl, inr,
  Bool-cases, Option-cases,
}
use dln_node_knots.Prelude.Outcome.{Outcome, out_of_fuel}
use dln_node_knots.Text.{Bytes, codes}
use dln_node_knots.Node.{Node}
use dln_node_knots.Ldk.{LdkService, World}
use dln_node_knots.Ldk.Wait.{
  wait_loop, poll_outcome, timeout_secs, rounds_for, wait_for_outbound_payment, poll_pause,
  nanos_per_sec, LdkPaymentResult, preimage_of,
}
use dln_node_knots.Ldk.Wait.Step.{
  after_list, after_instant, after_sleep, now, wait_loop_paid, wait_loop_late, wait_loop_again,
}
use dln_node_knots.Ldk.Errors.{LdkServiceError}
use dln_node_knots.Node.Types.{PaymentDetails}

-- The clock of the machine: reading it and listing the payments do not set it back, a reading is
-- between what it shows before and after, and a sleep lasts at least as long as was asked.
pub record Clock {S : Type 0} (node : Node S) : Type 0 where
  pub time : S → ℕ
  pub read_from : (s : S) → time s ≤ (node.instant s).0
  pub read_to : (s : S) → (node.instant s).0 ≤ time (node.instant s).1
  pub slept : (n : ℕ) (s : S) → time s + n ≤ time (node.sleep n s).1
  pub listed : (s : S) → time s ≤ time (node.list_payments s).1

poll_outcome-ends :
    (id : Bytes) (listed : List PaymentDetails) (r : Outcome LdkServiceError LdkPaymentResult)
    → poll_outcome id listed ≡ some r
    → r ≢ out_of_fuel
unfolding poll_outcome preimage_of
poll_outcome-ends id listed r e = ground arith

module _ {S : Type 0} (ldk : LdkService S) (clock : Clock ldk.node) where
  -- A round ends the wait, or leaves it to the rounds after it.
  round_ends :
      (rounds : ℕ) (id : Bytes) (start timeout : ℕ) (w : World S)
      → (ltb timeout (now ldk rounds id start timeout w - start) ≡ false
          → (wait_loop ldk rounds id start timeout
              (record w { node = after_sleep ldk rounds id start timeout w })).0
            ≢ out_of_fuel)
      → (wait_loop ldk (suc rounds) id start timeout w).0 ≢ out_of_fuel
  round_ends rounds id start timeout w again =
      let listed = (ldk.node.list_payments w.node).0 in
      elim (Option-cases (poll_outcome id listed)) [
        | inr (r, e) ↦
            rw (wait_loop_paid ldk rounds id start timeout w r e) (poll_outcome-ends id listed r e)
        | inl e ↦ elim (Bool-cases (ltb timeout (now ldk rounds id start timeout w - start))) [
          | inl late ↦ rw (wait_loop_late ldk rounds id start timeout w e late) (cc)
          | inr early ↦ rw (wait_loop_again ldk rounds id start timeout w e early) (again early)
        ]
      ]

  wait_loop-ends :
      (rounds : ℕ) (id : Bytes) (start timeout : ℕ) (w : World S)
      → start + timeout < clock.time w.node + rounds * poll_pause
      → (wait_loop ldk (suc rounds) id start timeout w).0 ≢ out_of_fuel
  wait_loop-ends zero id start timeout w h =
      let s1 = after_list ldk 0 id start timeout w in
      round_ends zero id start timeout w
        λ early. absurd (ground (arith, early, clock.listed w.node, clock.read_from s1))
  wait_loop-ends (suc rounds) id start timeout w h =
      let s1 = after_list ldk (suc rounds) id start timeout w in
      let s2 = after_instant ldk (suc rounds) id start timeout w in
      round_ends (suc rounds) id start timeout w λ early.
        wait_loop-ends rounds id start timeout
          (record w { node = after_sleep ldk (suc rounds) id start timeout w })
          (omega (
            arith,
            clock.listed w.node,
            clock.read_from s1,
            clock.read_to s1,
            clock.slept poll_pause s2,
          ))

  -- On a machine whose clock does not go back, and whose sleeps last as long as asked, the wait
  -- for a payment ends: the rounds of the model are enough for every timeout.
  pub wait_for_outbound_payment-ends :
      (id : Bytes) (w : World S) → (wait_for_outbound_payment ldk id w).0 ≢ out_of_fuel
  unfolding wait_for_outbound_payment rounds_for
  wait_for_outbound_payment-ends id w =
      let (variable, s0) = ldk.node.env_var (codes "DLN_PAYMENT_TIMEOUT_SECS") w.node in
      let (start, s1) = ldk.node.instant s0 in
      let timeout = timeout_secs variable * nanos_per_sec in
      wait_loop-ends (timeout / poll_pause + 1) id start timeout (record w { node = s1 })
        (omega (arith, clock.read_to s0))
