-- ===== src/Ldk/Invoices.antt =====
-- The invoices of src/lightning/ldk_service.rs: plain ones, and hold invoices, which are settled or
-- cancelled later.
pub mod Settle
use dln_node_knots.Prelude.{
  ℕ, ◌++◌, Bool, true, Option, none, some, ltb, if◌then◌else◌, u32_size, unwrap_or, is_some, length,
  ◌==◌,
}
use dln_node_knots.Prelude.Outcome.{Outcome, ok, err, ok_or, map_err, ◌>>=◌ as ◌>>=ᵒ◌}
use dln_node_knots.Prelude.Act.{Act, lift, pure, fail, ◌>>=◌}
use dln_node_knots.Text.{Bytes, Text, codes, trim}
use dln_node_knots.Node.{Library}
use dln_node_knots.Node.Types.{IssuedInvoice}
use dln_node_knots.Ldk.{LdkService, World, call, try_call}
use dln_node_knots.Ldk.Errors.{LdkServiceError, invalid_amount, invalid_invoice_request}

pub record LdkInvoiceResult : Type 0 where
  pub invoice : Text
  pub payment_hash : Option Text
  pub amount_msat : Option ℕ
  pub expires_at : Option ℕ

abbrev pub invoice_result : IssuedInvoice → LdkInvoiceResult
invoice_result i = record {
  invoice = i.encoded;
  payment_hash = some i.payment_hash;
  amount_msat = i.amount_milli_satoshis;
  expires_at = i.expires_at;
}

-- An hour where none is asked for; more than a u32 is refused.
unfoldable pub expiry_u32 : Option ℕ → Outcome LdkServiceError ℕ
expiry_u32 none = ok 3600
expiry_u32 (some secs) =
    if ltb secs u32_size
    then ok secs
    else err (invalid_invoice_request (codes "expiry exceeds u32::MAX"))

-- 32 bytes of hexadecimal text; `what` names them in the error.
unfoldable pub hex_to_32 : Library → Text → Text → Outcome LdkServiceError Bytes
hex_to_32 lib s what =
    map_err (λ e. invalid_invoice_request (what ++ (codes " is not valid hex: " ++ e)))
      (lib.hex_decode (trim s))
    >>=ᵒ λ raw.
        if length raw == 32
        then ok raw
        else err (invalid_invoice_request (what ++ codes " must be 32 bytes"))

unfoldable pub parse_payment_hash : Library → Text → Outcome LdkServiceError Bytes
parse_payment_hash lib hex = hex_to_32 lib hex (codes "payment_hash")

unfoldable pub parse_preimage : Library → Text → Outcome LdkServiceError Bytes
parse_preimage lib hex = hex_to_32 lib hex (codes "preimage")

module _ {S : Type 0} (ldk : LdkService S) where
  unfoldable pub make_hold_invoice :
      ℕ → Option Text → Option ℕ → Text → Act (World S) LdkServiceError LdkInvoiceResult
  make_hold_invoice amount_msat description expiry_secs payment_hash_hex =
      if amount_msat == 0 then fail (invalid_amount amount_msat) else do
        payment_hash ← lift (parse_payment_hash ldk.lib payment_hash_hex)
        desc ← lift (
            map_err invalid_invoice_request
              (ldk.lib.new_description (unwrap_or description (codes "nwc hold invoice"))))
        expiry ← lift (expiry_u32 expiry_secs)
        invoice ←
            try_call invalid_invoice_request
              (ldk.node.receive_for_hash amount_msat desc expiry payment_hash)
        pure (invoice_result invoice)

  unfoldable pub settle_hold_invoice : Text → Act (World S) LdkServiceError (Unit {0})
  settle_hold_invoice preimage_hex = do
    preimage ← lift (parse_preimage ldk.lib preimage_hex)
    found ← call (ldk.node.payment (ldk.lib.sha256 preimage))
    details ←
        lift (ok_or found (invalid_invoice_request (codes "no pending payment for that preimage")))
    amount_msat ←
        lift (ok_or details.amount_msat (invalid_invoice_request (codes "payment has no amount")))
    try_call invalid_invoice_request
        (ldk.node.claim_for_hash (ldk.lib.sha256 preimage) amount_msat preimage)

  unfoldable pub cancel_hold_invoice : Text → Act (World S) LdkServiceError (Unit {0})
  cancel_hold_invoice payment_hash_hex = do
    payment_hash ← lift (parse_payment_hash ldk.lib payment_hash_hex)
    try_call invalid_invoice_request (ldk.node.fail_for_hash payment_hash)

  unfoldable pub make_invoice :
      ℕ → Option Text → Option Text → Option ℕ → Act (World S) LdkServiceError LdkInvoiceResult
  make_invoice amount_msat description description_hash expiry_secs =
      if amount_msat == 0
      then fail (invalid_amount amount_msat)
      else if is_some description_hash
      then fail (invalid_invoice_request (codes "description_hash is not supported yet"))
      else do
        desc ← lift (
            map_err invalid_invoice_request
              (ldk.lib.new_description (unwrap_or description (codes "nwc invoice"))))
        expiry ← lift (expiry_u32 expiry_secs)
        invoice ← try_call invalid_invoice_request (ldk.node.receive amount_msat desc expiry)
        pure (invoice_result invoice)
