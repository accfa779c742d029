-- ===== src/Ldk/Send.antt =====
-- Payments out of src/lightning/ldk_service.rs, BOLT12 offers, and the lookup of one payment.
use dln_node_knots.Prelude.{ℕ, ◌++◌, Option, none, some, length, ◌==◌, if◌then◌else◌}
use dln_node_knots.Prelude.Outcome.{ok, err, ok_or, map_err}
use dln_node_knots.Prelude.Act.{Act, lift, fail, ◌>>=◌}
use dln_node_knots.Text.{Bytes, Text, codes}
use dln_node_knots.Hex.{decode_hex}
use dln_node_knots.Node.Types.{Invoice, PaymentDetails}
use dln_node_knots.Ldk.{LdkService, World, call, try_call}
use dln_node_knots.Ldk.Errors.{
  LdkServiceError, invalid_amount, invalid_invoice, invalid_pubkey, payment_failed,
  payment_not_found, invalid_address, offer_failed, address_generation_failed, sync_failed,
  stop_failed,
}
use dln_node_knots.Ldk.Wait.{LdkPaymentResult, wait_for_outbound_payment}

module _ {S : Type 0} (ldk : LdkService S) where
  -- The two calls of `pay_invoice`: with the amount of the caller, or that of the invoice.
  unfoldable pub send_invoice : Invoice → Option ℕ → Act (World S) LdkServiceError Bytes
  send_invoice invoice (some amount) =
      try_call payment_failed (ldk.node.send_using_amount invoice amount)
  send_invoice invoice none = try_call payment_failed (ldk.node.send invoice)

  unfoldable pub pay_invoice : Text → Option ℕ → Act (World S) LdkServiceError LdkPaymentResult
  pay_invoice invoice_str amount_msat = do
    invoice ← lift (map_err invalid_invoice (ldk.lib.parse_invoice invoice_str))
    payment_id ← send_invoice invoice amount_msat
    wait_for_outbound_payment ldk payment_id

  unfoldable pub pay_keysend : Text → ℕ → Act (World S) LdkServiceError LdkPaymentResult
  pay_keysend dest_pubkey amount_msat =
      if amount_msat == 0 then fail (invalid_amount amount_msat) else do
        node_id ← lift (map_err invalid_pubkey (ldk.lib.parse_public_key dest_pubkey))
        payment_id ← try_call payment_failed (ldk.node.send_spontaneous amount_msat node_id)
        wait_for_outbound_payment ldk payment_id

  unfoldable pub pay_onchain : Text → ℕ → Option ℕ → Act (World S) LdkServiceError Text
  pay_onchain address amount_sats feerate = do
    parsed ← lift (map_err invalid_address (ldk.lib.parse_address address))
    addr ← lift (map_err invalid_address (ldk.lib.require_network parsed ldk.network))
    try_call payment_failed (ldk.node.send_to_address addr amount_sats)

  unfoldable pub make_offer : ℕ → Text → Option ℕ → Act (World S) LdkServiceError Text
  make_offer amount_msat description expiry_secs =
      try_call offer_failed (ldk.node.receive_offer amount_msat description expiry_secs)

  -- The amount is an argument that the method does not use.
  unfoldable pub pay_offer :
      Text → Option ℕ → Option Text → Act (World S) LdkServiceError LdkPaymentResult
  pay_offer offer_str amount payer_note = do
    offer ←
        lift (
          map_err (λ e. offer_failed (codes "invalid offer: " ++ e))
            (ldk.lib.parse_offer offer_str))
    payment_id ← try_call payment_failed (ldk.node.send_offer offer payer_note)
    wait_for_outbound_payment ldk payment_id

  unfoldable pub new_onchain_address : Act (World S) LdkServiceError Text
  new_onchain_address = try_call address_generation_failed ldk.node.new_address

  unfoldable pub sync_wallets : Act (World S) LdkServiceError (Unit {0})
  sync_wallets = try_call sync_failed ldk.node.sync_wallets

  unfoldable pub stop : Act (World S) LdkServiceError (Unit {0})
  stop = try_call stop_failed ldk.node.stop

  unfoldable pub lookup_payment_by_hash : Text → Act (World S) LdkServiceError PaymentDetails
  lookup_payment_by_hash payment_hash = do
    hash_bytes ← lift (
        map_err (λ e. payment_not_found (codes "invalid payment hash hex: " ++ e))
          (decode_hex payment_hash))
    arr ← lift (
        if length hash_bytes == 32
        then ok hash_bytes
        else err (payment_not_found (codes "payment hash must be 32 bytes")))
    found ← call (ldk.node.payment arr)
    lift (ok_or found (payment_not_found payment_hash))

  unfoldable pub lookup_payment_by_bolt11 : Text → Act (World S) LdkServiceError PaymentDetails
  lookup_payment_by_bolt11 invoice_str = do
    invoice ← lift (map_err invalid_invoice (ldk.lib.parse_invoice invoice_str))
    lookup_payment_by_hash invoice.payment_hash
