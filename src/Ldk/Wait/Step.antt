-- ===== src/Ldk/Wait/Step.antt =====
-- One round of the wait: it ends with an outcome, or with the timeout, or another round follows.
use dln_node_knots.Prelude.{ℕ, suc, ◌-◌, true, false, none, some, ◌≡◌, arith, ltb}
use dln_node_knots.Prelude.Outcome.{Outcome, err}
use dln_node_knots.Text.{Bytes}
use dln_node_knots.Ldk.{LdkService, World}
use dln_node_knots.Ldk.Errors.{LdkServiceError}
use dln_node_knots.Ldk.Wait.{wait_loop, poll_outcome, poll_pause, timeout_error, LdkPaymentResult}

module _ {S : Type 0} (ldk : LdkService S) (rounds : ℕ) (id : Bytes) (start timeout : ℕ)
    (w : World S) where
  abbrev pub after_list : S
  after_list = (ldk.node.list_payments w.node).1

  abbrev pub after_instant : S
  after_instant = (ldk.node.instant after_list).1

  abbrev pub now : ℕ
  now = (ldk.node.instant after_list).0

  abbrev pub after_sleep : S
  after_sleep = (ldk.node.sleep poll_pause after_instant).1

  pub wait_loop_paid :
      (r : Outcome LdkServiceError LdkPaymentResult)
      → poll_outcome id (ldk.node.list_payments w.node).0 ≡ some r
      → wait_loop ldk (suc rounds) id start timeout w ≡ (r, record w { node = after_list })
  unfolding wait_loop
  wait_loop_paid r e = ground arith

  pub wait_loop_late :
      poll_outcome id (ldk.node.list_payments w.node).0 ≡ none
      → ltb timeout (now - start) ≡ true
      → wait_loop ldk (suc rounds) id start timeout w
        ≡ (err timeout_error, record w { node = after_instant })
  unfolding wait_loop
  wait_loop_late e late = ground arith

  pub wait_loop_again :
      poll_outcome id (ldk.node.list_payments w.node).0 ≡ none
      → ltb timeout (now - start) ≡ false
      → wait_loop ldk (suc rounds) id start timeout w
        ≡ wait_loop ldk rounds id start timeout (record w { node = after_sleep })
  unfolding wait_loop
  wait_loop_again e early = ground arith
