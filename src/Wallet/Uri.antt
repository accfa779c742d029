-- ===== src/Wallet/Uri.antt =====
-- `pay` of src/wallet.rs: it follows the first instruction of a BIP321 URI that the node can.
pub mod Paid
use dln_node_knots.Prelude.{
  ℕ, ◌/◌, ◌*◌, ◌++◌, Bool, true, false, not, ◌||◌, Option, none, some, List, [], ◌∷◌, map_option,
  and_then, or_else, unwrap_or, is_some, head?, if◌then◌else◌, wrap64,
}
use dln_node_knots.Prelude.Outcome.{Outcome, ok, err, panic, out_of_fuel, ok_or, map_err, to_option}
use dln_node_knots.Prelude.Act.{Act, pure, fail, lift, ◌>>=◌, ◌>>◌}
use dln_node_knots.Text.{Text, codes, text_eq}
use dln_node_knots.Hex.{decode_hex_32}
use dln_node_knots.Node.Types.{Uri, Address}
use dln_node_knots.Ldk.{World}
use dln_node_knots.Ldk.Wait.{LdkPaymentResult}
use dln_node_knots.Ldk.Send
use dln_node_knots.Ldk.Invoices
use dln_node_knots.Ldk.Invoices.{LdkInvoiceResult}
use dln_node_knots.Ldk.Errors.{LdkServiceError}
use dln_node_knots.Nnc.{
  NncError, nnc_error, or_ldk_err, bad_request, payment_failed, unsupported_payment_instruction,
}
use dln_node_knots.Wallet.{Wallet, now}
use dln_node_knots.Wallet.Offers.{to_u32, offer_id_of, store_offer}
use dln_node_knots.Wallet.Addresses.{remember_address, asks_other_type}

pub record PayRequest : Type 0 where
  pub payment : Text
  pub amount : Option ℕ
  pub payer_note : Option Text

pub record PayResponse : Type 0 where
  pub transaction_id : Text
  pub state : Text
  pub instruction_type : Text
  pub amount : ℕ
  pub fees_paid : ℕ
  pub payment_hash : Option Text
  pub preimage : Option Text
  pub payer_proof : Option Text
  pub txid : Option Text
  pub failure_reason : Option Text
  pub created_at : ℕ
  pub settled_at : Option ℕ

abbrev paid_response : Text → ℕ → Option Text → Option Text → Option Text → ℕ → ℕ → ℕ → PayResponse
paid_response instruction_type amount hash preimage txid fees_paid created settled = record {
  transaction_id = unwrap_or (or_else hash txid) [];
  state = codes "settled";
  instruction_type = instruction_type;
  amount = amount;
  fees_paid = fees_paid;
  payment_hash = hash;
  preimage = preimage;
  payer_proof = none;
  txid = txid;
  failure_reason = none;
  created_at = created;
  settled_at = some settled;
}

module _ {S : Type 0} (wallet : Wallet S) where
  -- The hash of the preimage in hexadecimal. Where `decode_hex` gives none there is no hash.
  unfoldable pub hash_of : Option Text → Outcome NncError (Option Text)
  hash_of none = ok none
  hash_of (some preimage) = elim (decode_hex_32 preimage) [
    | ok bytes ↦ ok (some (wallet.ldk.lib.sha256_text bytes))
    | err e ↦ ok none
    | panic ↦ panic
    | out_of_fuel ↦ out_of_fuel
  ]

  unfoldable pub paid :
      Text → ℕ → Option Text → Option Text → ℕ → Act (World S) NncError PayResponse
  paid instruction_type amount preimage txid fees_paid = do
    hash ← lift (hash_of preimage)
    created ← now wallet.ldk
    settled ← now wallet.ldk
    pure (paid_response instruction_type amount hash preimage txid fees_paid created settled)

  unfoldable pub pay_onchain_part : Uri → Option ℕ → Act (World S) NncError PayResponse
  pay_onchain_part uri amount_msat = do
    amount_sat ← lift (
        ok_or (map_option (λ (m : ℕ). m / 1_000) amount_msat)
          (nnc_error bad_request (codes "an on-chain payment needs an amount")))
    addr ← lift (ok_or uri.address_str (nnc_error bad_request (codes "missing address")))
    txid ←
        or_ldk_err (codes "pay/onchain") payment_failed
          (Send.pay_onchain wallet.ldk addr amount_sat none)
    paid (codes "onchain") (wrap64 (amount_sat * 1_000)) none (some txid) 0

  -- The three `if`s of `pay`, in their order: invoices, then offers, then the address.
  unfoldable pub pay_uri : Uri → Option ℕ → Option Text → Act (World S) NncError PayResponse
  pay_uri uri amount_msat payer_note = elim (head? uri.lightning) [
    | some invoice ↦ do
      p ←
          or_ldk_err (codes "pay/bolt11") payment_failed
            (Send.pay_invoice wallet.ldk invoice amount_msat)
      paid (codes "bolt11") (unwrap_or amount_msat 0) (some p.preimage) none
          (unwrap_or p.fees_paid_msat 0)
    | none ↦ elim (head? uri.lno) [
      | some offer ↦ do
        p ←
            or_ldk_err (codes "pay/bolt12") payment_failed
              (Send.pay_offer wallet.ldk offer amount_msat payer_note)
        paid (codes "bolt12") (unwrap_or amount_msat 0) (some p.preimage) none
            (unwrap_or p.fees_paid_msat 0)
      | none ↦
          if is_some uri.address
          then pay_onchain_part uri amount_msat
          else fail (
              nnc_error unsupported_payment_instruction
                (codes "no instruction in this URI is one this node can pay"))
    ]
  ]

  unfoldable pub pay : PayRequest → Act (World S) NncError PayResponse
  pay r = do
    uri ← lift (
        map_err (λ e. nnc_error bad_request (codes "bip321: " ++ e))
          (wallet.ldk.lib.parse_uri r.payment))
    pay_uri uri (or_else r.amount (map_option (λ (sats : ℕ). wrap64 (sats * 1_000)) uri.amount))
        r.payer_note
