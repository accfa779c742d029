-- ===== src/Wallet/Lookup.antt =====
-- Payments that src/wallet.rs looks up and lists.
pub mod Answers
use dln_node_knots.Prelude.{
  ℕ, ◌+◌, Bool, true, false, ◌&&◌, ◌||◌, not, Option, none, some, List, [], ◌∷◌, map, map_option,
  and_then, or_else, unwrap_or, is_some, length, ltb, ◌==◌, if◌then◌else◌,
}
use dln_node_knots.Prelude.Select.{select}
use dln_node_knots.Prelude.Act.{Act, pure, fail, ◌>>=◌}
use dln_node_knots.Text.{Text, codes}
use dln_node_knots.Node.Types.{Json, PaymentDetails, PaymentDirection, inbound, outbound}
use dln_node_knots.Ldk.{World}
use dln_node_knots.Ldk.Errors.{LdkServiceError}
use dln_node_knots.Ldk.History.{Query, list_payments_filtered}
use dln_node_knots.Ldk.Send.{lookup_payment_by_hash, lookup_payment_by_bolt11}
use dln_node_knots.Nnc.{NncError, nnc_error, or_ldk_err, bad_request, not_found}
use dln_node_knots.Wallet.{
  Wallet, Transaction, TransactionType, incoming, outgoing, TransactionState, to_transaction, now,
}
pub use dln_node_knots.Wallet.Requests.{
  LookupInvoiceRequest, LookupPaymentRequest, PaymentState, LookupPaymentResponse,
  ListTransactionsRequest, ListTransactionsResponse, InvoiceState, ListInvoicesRequest,
  InvoiceRecord,
}

unfoldable pub payment_state : Option TransactionState → PaymentState
payment_state (some TransactionState.settled) = PaymentState.settled
payment_state (some TransactionState.failed) = PaymentState.failed
payment_state (some TransactionState.accepted) = PaymentState.accepted
payment_state (some TransactionState.expired) = PaymentState.expired
payment_state (some TransactionState.pending) = PaymentState.pending
payment_state none = PaymentState.pending

unfoldable pub payment_response : Transaction → LookupPaymentResponse
payment_response t = record {
  transaction_id = t.payment_hash;
  payment_direction = t.transaction_type;
  state = payment_state t.state;
  payment_type = codes "bolt11";
  amount = t.amount;
  fees_paid = some t.fees_paid;
  created_at = t.created_at;
  expires_at = t.expires_at;
  settled_at = t.settled_at;
  payment_hash = t.payment_hash;
  invoice = t.invoice;
  preimage = t.preimage;
  description = t.description;
}

abbrev pub direction_of : TransactionType → PaymentDirection
direction_of incoming = inbound
direction_of outgoing = outbound

-- `t.expires_at.is_some_and(|e| e < now)`
abbrev pub is_past : Option ℕ → ℕ → Bool
is_past none time = false
is_past (some e) time = ltb e time

abbrev pub unsettled_state : Bool → InvoiceState
unsettled_state true = InvoiceState.expired
unsettled_state false = InvoiceState.pending

unfoldable pub invoice_state : Option TransactionState → Bool → InvoiceState
invoice_state (some TransactionState.settled) past = InvoiceState.settled
invoice_state (some TransactionState.failed) past = unsettled_state past
invoice_state (some TransactionState.pending) past = unsettled_state past
invoice_state (some TransactionState.accepted) past = unsettled_state past
invoice_state (some TransactionState.expired) past = unsettled_state past
invoice_state none past = unsettled_state past

unfoldable pub same_state : InvoiceState → InvoiceState → Bool
same_state InvoiceState.settled InvoiceState.settled = true
same_state InvoiceState.expired InvoiceState.expired = true
same_state InvoiceState.pending InvoiceState.pending = true
same_state InvoiceState.unlisted InvoiceState.unlisted = true
same_state _ _ = false

-- `if state == InvoiceState::Settled { o } else { None }`
abbrev pub where_settled {ℓ} : {A : Type ℓ} → InvoiceState → Option A → Option A
where_settled InvoiceState.settled o = o
where_settled InvoiceState.expired o = none
where_settled InvoiceState.pending o = none
where_settled InvoiceState.unlisted o = none

abbrev pub record_with : InvoiceState → Transaction → InvoiceRecord
record_with state t = record {
  invoice = unwrap_or t.invoice [];
  description = t.description;
  payment_hash = t.payment_hash;
  amount = t.amount;
  preimage = where_settled state t.preimage;
  settled_at = where_settled state t.settled_at;
  state = state;
  created_at = t.created_at;
  expires_at = unwrap_or t.expires_at 0;
}

unfoldable pub invoice_record : ℕ → PaymentDetails → InvoiceRecord
invoice_record time p =
    let t = to_transaction p in record_with (invoice_state t.state (is_past t.expires_at time)) t

-- `r.state.as_ref().is_none_or(|w| *w == i.state)`
abbrev pub wants_state : Option InvoiceState → InvoiceRecord → Bool
wants_state none i = true
wants_state (some w) i = same_state w i.state

abbrev count_if : Bool → ℕ
count_if true = 1
count_if false = 0

-- The selector forms of NWC-09 that a request uses.
unfoldable pub forms : LookupPaymentRequest → ℕ
forms r =
    count_if (is_some r.transaction_id)
    + count_if (is_some r.payment_hash || is_some r.invoice)
    + count_if (is_some r.payment_type && is_some r.lookup)

module _ {S : Type 0} (wallet : Wallet S) where
  -- The `match` on the hash and the invoice, and its error for neither.
  unfoldable pub lookup_by :
      Text → Text → Option Text → Option Text → Act (World S) NncError PaymentDetails
  lookup_by what missing (some hash) invoice =
      or_ldk_err what not_found (lookup_payment_by_hash wallet.ldk hash)
  lookup_by what missing none (some invoice) =
      or_ldk_err what not_found (lookup_payment_by_bolt11 wallet.ldk invoice)
  lookup_by what missing none none = fail (nnc_error bad_request missing)

  unfoldable pub lookup_invoice : LookupInvoiceRequest → Act (World S) NncError Transaction
  lookup_invoice r = do
    found ←
        lookup_by (codes "lookup_invoice") (codes "one of payment_hash or invoice is required")
          r.payment_hash r.invoice
    pure (to_transaction found)

  unfoldable pub selected_hash : LookupPaymentRequest → Option Text
  selected_hash r = or_else r.transaction_id (
      or_else r.payment_hash
        (and_then r.lookup (λ l. wallet.ldk.lib.json_str l (codes "payment_hash"))))

  unfoldable pub lookup_payment :
      LookupPaymentRequest → Act (World S) NncError LookupPaymentResponse
  lookup_payment r =
      if not (forms r == 1)
      then fail (
          nnc_error bad_request
            (codes "exactly one of transaction_id, the bolt11 fields, or payment_type with lookup"))
      else do
        found ←
            lookup_by (codes "lookup_payment") (codes "no usable selector") (selected_hash r)
              r.invoice
        pure (payment_response (to_transaction found))

  unfoldable pub list_transactions :
      ListTransactionsRequest → Act (World S) NncError ListTransactionsResponse
  list_transactions r = do
    found ← list_payments_filtered wallet.ldk (record {
      from = r.from;
      until = r.until;
      limit = r.limit;
      offset = r.offset;
      unpaid = r.unpaid;
      direction = map_option direction_of r.transaction_type;
      payment_method = none;
    })
    pure (record {
      transactions = map to_transaction found;
      total_count = some (length (map to_transaction found));
    })

  unfoldable pub list_invoices : ListInvoicesRequest → Act (World S) NncError (List InvoiceRecord)
  list_invoices r = do
    found ← list_payments_filtered wallet.ldk (record {
      from = r.from;
      until = r.until;
      limit = r.limit;
      offset = r.offset;
      unpaid = some true;
      direction = some inbound;
      payment_method = none;
    })
    now_secs ← now wallet.ldk
    pure (select (wants_state r.state) (map (invoice_record now_secs) found))
