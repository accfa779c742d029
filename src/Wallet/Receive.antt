-- ===== src/Wallet/Receive.antt =====
-- `receive` of src/wallet.rs: a BIP321 URI with the instructions that the node can give.
pub mod Known
pub mod Issued
use dln_node_knots.Prelude.{
  ℕ, ◌/◌, ◌*◌, ◌++◌, Bool, true, false, not, ◌||◌, Option, none, some, List, [], ◌∷◌, map_option,
  and_then, or_else, unwrap_or, is_some, head?, if◌then◌else◌, wrap64,
}
use dln_node_knots.Prelude.Outcome.{Outcome, ok, err, panic, out_of_fuel, ok_or, map_err, to_option}
use dln_node_knots.Prelude.Act.{Act, pure, fail, lift, ◌>>=◌, ◌>>◌}
use dln_node_knots.Text.{Text, codes, text_eq}
use dln_node_knots.Hex.{decode_hex_32}
use dln_node_knots.Node.Types.{Uri, Address}
use dln_node_knots.Ldk.{World}
use dln_node_knots.Ldk.Wait.{LdkPaymentResult}
use dln_node_knots.Ldk.Send
use dln_node_knots.Ldk.Invoices
use dln_node_knots.Ldk.Invoices.{LdkInvoiceResult}
use dln_node_knots.Ldk.Errors.{LdkServiceError}
use dln_node_knots.Nnc.{
  NncError, nnc_error, or_ldk_err, bad_request, payment_failed, unsupported_payment_instruction,
}
use dln_node_knots.Wallet.{Wallet, now}
use dln_node_knots.Wallet.Offers.{to_u32, offer_id_of, store_offer}
use dln_node_knots.Wallet.Addresses.{remember_address, asks_other_type}

pub record Bip321Method : Type 0 where
  pub method : Text
  pub expiry : Option ℕ
  pub address_type : Option Text

pub record ReceiveRequest : Type 0 where
  pub amount : Option ℕ
  pub label : Option Text
  pub description : Option Text
  pub methods : Option (List Bip321Method)

-- An empty URI, with what the request gives to all of its instructions.
unfoldable pub new_uri : ReceiveRequest → Uri
new_uri r = record {
  amount = map_option (λ (m : ℕ). m / 1_000) r.amount;
  label = r.label;
  message = r.description;
  lightning = [];
  lno = [];
  address = none;
  address_str = none;
}

abbrev pub with_address : Uri × Bool → Text → Option Address → Uri × Bool
with_address (uri, any) addr none = (uri, any)
with_address (uri, any) addr (some parsed) =
    (record uri { address = some parsed; address_str = some addr }, true)

abbrev method_named : Text → Bip321Method
method_named method = record { method = method; expiry = none; address_type = none }

unfoldable pub default_methods : List Bip321Method
default_methods =
    method_named (codes "bolt11")
    ∷ method_named (codes "bolt12")
    ∷ method_named (codes "onchain")
    ∷ []

module _ {S : Type 0} (wallet : Wallet S) where
  -- What one entry makes of the URI and of the flag `any`. A call that fails is logged, and leaves
  -- both as they were.
  unfoldable pub with_invoice :
      Uri × Bool
      → Outcome LdkServiceError LdkInvoiceResult × World S
      → Outcome NncError (Uri × Bool) × World S
  with_invoice (uri, any) (ok inv, w) =
      (ok (record uri { lightning = uri.lightning ++ inv.invoice ∷ [] }, true), w)
  with_invoice made (err e, w) = (ok made, w)
  with_invoice made (panic, w) = (panic, w)
  with_invoice made (out_of_fuel, w) = (out_of_fuel, w)

  unfoldable pub add_bolt11 :
      ReceiveRequest → Bip321Method → Uri × Bool → Act (World S) NncError (Uri × Bool)
  add_bolt11 r entry made w = elim r.amount [
    | none ↦ (ok made, w)
    | some amount ↦
        with_invoice made
          (Invoices.make_invoice wallet.ldk amount r.description none entry.expiry w)
  ]

  unfoldable pub with_offer :
      Text
      → ℕ
      → Uri × Bool
      → Outcome LdkServiceError Text × World S
      → Outcome NncError (Uri × Bool) × World S
  with_offer desc amount (uri, any) (ok offer, w) =
      (do
        store_offer offer desc amount (offer_id_of wallet.ldk.lib offer)
        pure (record uri { lno = uri.lno ++ offer ∷ [] }, true))
        w
  with_offer desc amount made (err e, w) = (ok made, w)
  with_offer desc amount made (panic, w) = (panic, w)
  with_offer desc amount made (out_of_fuel, w) = (out_of_fuel, w)

  unfoldable pub add_bolt12 :
      ReceiveRequest → Bip321Method → Uri × Bool → Act (World S) NncError (Uri × Bool)
  add_bolt12 r entry made w =
      let desc = unwrap_or r.description (codes "bip321 offer") in
      let amount = unwrap_or r.amount 0 in
      with_offer desc amount made
        (Send.make_offer wallet.ldk amount desc (and_then entry.expiry to_u32) w)

  unfoldable pub with_new_address :
      Uri × Bool → Outcome LdkServiceError Text × World S → Outcome NncError (Uri × Bool) × World S
  with_new_address made (ok addr, w) =
      (do
        remember_address addr
        pure (with_address made addr (to_option (wallet.ldk.lib.parse_address addr))))
        w
  with_new_address made (err e, w) = (ok made, w)
  with_new_address made (panic, w) = (panic, w)
  with_new_address made (out_of_fuel, w) = (out_of_fuel, w)

  unfoldable pub add_onchain : Bip321Method → Uri × Bool → Act (World S) NncError (Uri × Bool)
  add_onchain entry made w =
      if asks_other_type entry.address_type
      then (ok made, w)
      else with_new_address made (Send.new_onchain_address wallet.ldk w)

  unfoldable pub add_entry :
      ReceiveRequest → Bip321Method → Uri × Bool → Act (World S) NncError (Uri × Bool)
  add_entry r entry made =
      if text_eq entry.method (codes "bolt11")
      then add_bolt11 r entry made
      else if text_eq entry.method (codes "bolt12")
      then add_bolt12 r entry made
      else if text_eq entry.method (codes "onchain")
      then add_onchain entry made
      else pure made

  unfoldable pub add_entries :
      ReceiveRequest → List Bip321Method → Uri × Bool → Act (World S) NncError (Uri × Bool)
  add_entries r [] made = pure made
  add_entries r (entry ∷ entries) made = do
    next ← add_entry r entry made
    add_entries r entries next

  -- `if !any { return Err(…) }`, else the text of the URI
  unfoldable pub finish_uri : Uri × Bool → Act (World S) NncError Text
  finish_uri (uri, true) = pure (wallet.ldk.lib.show_uri uri)
  finish_uri (uri, false) =
      fail (nnc_error bad_request (codes "no payment instruction could be generated"))

  unfoldable pub receive : ReceiveRequest → Act (World S) NncError Text
  receive r = do
    made ← add_entries r (unwrap_or r.methods default_methods) (new_uri r, false)
    finish_uri made
