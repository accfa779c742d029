-- ===== src/Wallet/Lookup/Answers.antt =====
-- What the listings and the lookups of the wallet answer.
use dln_node_knots.Prelude.{
  ℕ, Bool, none, some, List, [], ◌∷◌, ◌≡◌, refl, ap, ◌⊎◌, inl, inr, map, All, Bool-cases,
}
use dln_node_knots.Prelude.Select.{select}
use dln_node_knots.Prelude.Outcome.{ok}
use dln_node_knots.Node.Types.{PaymentDetails, PaymentStatus}
use dln_node_knots.Ldk.{World}
use dln_node_knots.Ldk.History.{list_payments_filtered}
use dln_node_knots.Wallet.{Wallet, to_transaction}
use dln_node_knots.Wallet.Lookup.{
  InvoiceRecord, InvoiceState, invoice_record, invoice_state, list_invoices, ListInvoicesRequest,
  wants_state, same_state,
}

-- A record that does not show a preimage or a time of settling, unless it is settled.
abbrev pub Hides : InvoiceRecord → Type 0
Hides i =
    (i.state ≡ InvoiceState.settled)
    ⊎ ((i.state ≡ InvoiceState.pending) × (i.preimage ≡ none) × (i.settled_at ≡ none))

invoice_record-Hides : (time : ℕ) (p : PaymentDetails) → Hides (invoice_record time p)
unfolding invoice_record to_transaction invoice_state
invoice_record-Hides time p = by_status p.status refl
  where
    by_status : (s : PaymentStatus) → p.status ≡ s → Hides (invoice_record time p)
    by_status PaymentStatus.succeeded e = inl (rw e refl)
    by_status PaymentStatus.failed e = inr (rw e (refl, refl, refl))
    by_status PaymentStatus.pending e = inr (rw e (refl, refl, refl))

records-Hides :
    (test : InvoiceRecord → Bool) (time : ℕ) (ps : List PaymentDetails)
    → All Hides (select test (map (invoice_record time) ps))
records-Hides test time [] = tt
records-Hides test time (p ∷ ps) = elim (Bool-cases (test (invoice_record time p))) [
  | inl kept ↦ rw kept (invoice_record-Hides time p, records-Hides test time ps)
  | inr left ↦ rw left (records-Hides test time ps)
]

expired_none :
    (time : ℕ) (ps : List PaymentDetails)
    → select (wants_state (some InvoiceState.expired)) (map (invoice_record time) ps) ≡ []
unfolding same_state
expired_none time [] = refl
expired_none time (p ∷ ps) = elim (invoice_record-Hides time p) [
  | inl settled ↦ rw settled (expired_none time ps)
  | inr (pending, no_preimage, no_time) ↦ rw pending (expired_none time ps)
]

module _ {S : Type 0} (wallet : Wallet S) where
  -- The listing of invoices always succeeds, and every invoice in it is settled, or is pending and
  -- shows neither a preimage nor a time of settling.
  pub list_invoices-Hides :
      (r : ListInvoicesRequest) (w : World S)
      → (records : List InvoiceRecord) × ((list_invoices wallet r w).0 ≡ ok records)
        × All Hides records
  unfolding list_invoices list_payments_filtered
  list_invoices-Hides r w = (_, refl, records-Hides (wants_state r.state) _ _)

  -- No invoice is ever listed as expired: a request for the expired ones gets an empty list.
  pub list_invoices_expired :
      (r : ListInvoicesRequest) (w : World S)
      → r.state ≡ some InvoiceState.expired
      → (list_invoices wallet r w).0 ≡ ok []
  unfolding list_invoices list_payments_filtered
  list_invoices_expired r w e = rw e (ap ok (expired_none _ _))
