-- ===== src/Wallet/Invoices.antt =====
-- Invoices of src/wallet.rs: plain ones and hold invoices.
use dln_node_knots.Prelude.{ℕ, Option, none, some, [], unwrap_or, is_some, if◌then◌else◌}
use dln_node_knots.Prelude.Act.{Act, pure, fail, ◌>>=◌}
use dln_node_knots.Text.{Text, codes}
use dln_node_knots.Node.Types.{Json}
use dln_node_knots.Ldk.{World}
use dln_node_knots.Ldk.Invoices.{LdkInvoiceResult}
use dln_node_knots.Ldk.Invoices
use dln_node_knots.Nnc.{NncError, nnc_error, or_ldk_err, bad_request, internal}
use dln_node_knots.Wallet.{Wallet, Transaction, incoming, pending, now}

pub record MakeInvoiceRequest : Type 0 where
  pub amount : ℕ
  pub description : Option Text
  pub description_hash : Option Text
  pub expiry : Option ℕ
  pub metadata : Option Json

pub record MakeHoldInvoiceRequest : Type 0 where
  pub amount : ℕ
  pub description : Option Text
  pub description_hash : Option Text
  pub expiry : Option ℕ
  pub payment_hash : Text

pub record MakeHoldInvoiceResponse : Type 0 where
  pub kind : Text
  pub invoice : Option Text
  pub payment_hash : Text
  pub amount : ℕ
  pub created_at : ℕ
  pub expires_at : Option ℕ
  pub description : Option Text
  pub description_hash : Option Text
  pub metadata : Option Json

abbrev pub invoice_transaction : MakeInvoiceRequest → LdkInvoiceResult → ℕ → Transaction
invoice_transaction r inv time = record {
  transaction_type = incoming;
  state = some pending;
  invoice = some inv.invoice;
  description = r.description;
  description_hash = r.description_hash;
  preimage = none;
  payment_hash = unwrap_or inv.payment_hash [];
  amount = unwrap_or inv.amount_msat r.amount;
  fees_paid = 0;
  created_at = time;
  expires_at = inv.expires_at;
  settled_at = none;
  metadata = r.metadata;
}

abbrev pub hold_response : MakeHoldInvoiceRequest → LdkInvoiceResult → ℕ → MakeHoldInvoiceResponse
hold_response r inv time = record {
  kind = codes "incoming";
  invoice = some inv.invoice;
  payment_hash = r.payment_hash;
  amount = unwrap_or inv.amount_msat r.amount;
  created_at = time;
  expires_at = inv.expires_at;
  description = r.description;
  description_hash = r.description_hash;
  metadata = none;
}

module _ {S : Type 0} (wallet : Wallet S) where
  unfoldable pub make_invoice : MakeInvoiceRequest → Act (World S) NncError Transaction
  make_invoice r =
      if is_some r.description_hash
      then fail (nnc_error bad_request (codes "this node does not support description_hash"))
      else do
        inv ←
            or_ldk_err (codes "make_invoice") internal
              (Invoices.make_invoice wallet.ldk r.amount r.description r.description_hash r.expiry)
        time ← now wallet.ldk
        pure (invoice_transaction r inv time)

  unfoldable pub make_hold_invoice :
      MakeHoldInvoiceRequest → Act (World S) NncError MakeHoldInvoiceResponse
  make_hold_invoice r = do
    inv ←
        or_ldk_err (codes "make_hold_invoice") internal
          (Invoices.make_hold_invoice wallet.ldk r.amount r.description r.expiry r.payment_hash)
    time ← now wallet.ldk
    pure (hold_response r inv time)

  unfoldable pub settle_hold_invoice : Text → Act (World S) NncError (Unit {0})
  settle_hold_invoice preimage =
      or_ldk_err (codes "settle_hold_invoice") internal
        (Invoices.settle_hold_invoice wallet.ldk preimage)

  unfoldable pub cancel_hold_invoice : Text → Act (World S) NncError (Unit {0})
  cancel_hold_invoice payment_hash =
      or_ldk_err (codes "cancel_hold_invoice") internal
        (Invoices.cancel_hold_invoice wallet.ldk payment_hash)
