-- ===== src/Server/Handlers/Tables.antt =====
-- The effect of the handlers of addresses and offers, and of `receive` (src/wallet.rs), on the tables.
use dln_node_knots.Prelude.{
  ℕ, Bool, true, false, Option, none, some, List, [], ◌∷◌, refl, Option-cases, Bool-cases, inl, inr,
}
use dln_node_knots.Prelude.Outcome.{Outcome, ok, err, panic, out_of_fuel}
use dln_node_knots.Text.{Bytes, Text}
use dln_node_knots.Ldk.Errors.{LdkServiceError}
use dln_node_knots.Ldk.Invoices.{LdkInvoiceResult}
use dln_node_knots.Ldk.Invoices
use dln_node_knots.Node.Types
use dln_node_knots.Prelude.Act.{lift, pure}
use dln_node_knots.Ldk.{World}
use dln_node_knots.Nnc.{NncError}
use dln_node_knots.State.Offers.{find_by_offer_id}
use dln_node_knots.Wallet.{Wallet}
use dln_node_knots.Wallet.Addresses
use dln_node_knots.Wallet.Offers
use dln_node_knots.Wallet.Receive
use dln_node_knots.Server.Methods.{
  method_rules, make_invoice-Runs, make_offer-Runs as make_ldk_offer-Runs, new_onchain_address-Runs,
}
use dln_node_knots.Server.Runs.{
  Runs, apply, Reaches, Reaches-same, Reaches-one, Reaches-trans, Runs-pure, Runs-bind, Runs-lift,
  insert_call, disable_call, register_call,
}

module _ {S E : Type 0} where
  store_offer-Runs :
      (offer desc : Text) (amount : ℕ) (id : Bytes)
      → Runs {S = S} {E = E} (Offers.store_offer offer desc amount id)
  unfolding apply
  store_offer-Runs offer desc amount id = record {
    at = λ w. Reaches-one w _ (insert_call offer desc amount id) refl;
  }

  deactivate_offer-Runs : (offer : Text) → Runs {S = S} {E = E} (Offers.deactivate_offer offer)
  unfolding apply
  deactivate_offer-Runs offer = record { at = λ w. Reaches-one w _ (disable_call offer) refl }

  remember_address-Runs : (a : Text) → Runs {S = S} {E = E} (Addresses.remember_address a)
  unfolding apply
  remember_address-Runs a = record { at = λ w. Reaches-one w _ (register_call a) refl }

ruleset table_rules = (method_rules, store_offer-Runs, deactivate_offer-Runs, remember_address-Runs)

module _ {S : Type 0} (wallet : Wallet S) where
  pub pay_onchain-Runs : (r : Addresses.PayOnchainRequest) → Runs (Addresses.pay_onchain wallet r)
  unfolding Addresses.pay_onchain
  pay_onchain-Runs r = search table_rules depth 8

  pub make_new_address-Runs : (r : Option Text) → Runs (Addresses.make_new_address wallet r)
  unfolding Addresses.make_new_address
  make_new_address-Runs r = search table_rules depth 8

  pub lookup_address-Runs : (r : Text) → Runs (Addresses.lookup_address wallet r)
  unfolding Addresses.lookup_address
  lookup_address-Runs r = record {
    at = λ w. (Runs-bind (lift _) (λ rec. pure _) (Runs-lift _) (λ rec. Runs-pure _)).at w;
  }

  pub list_addresses-Runs : Runs (Addresses.list_addresses wallet)
  unfolding Addresses.list_addresses
  list_addresses-Runs = record { at = λ w. Reaches-same w w refl }

  expiry_in-Runs : (o : Option ℕ) → Runs (Offers.expiry_in wallet o)
  unfolding Offers.expiry_in
  expiry_in-Runs none = search table_rules
  expiry_in-Runs (some e) = search table_rules

  pub make_offer-Runs : (r : Offers.MakeOfferRequest) → Runs (Offers.make_offer wallet r)
  unfolding Offers.make_offer
  make_offer-Runs r = search (table_rules, expiry_in-Runs) depth 10

  pub pay_offer-Runs : (r : Offers.PayOfferRequest) → Runs (Offers.pay_offer wallet r)
  unfolding Offers.pay_offer
  pay_offer-Runs r = search table_rules depth 8

  pub list_offers-Runs : (r : Option Bool) → Runs (Offers.list_offers wallet r)
  unfolding Offers.list_offers
  list_offers-Runs r = record { at = λ w. Reaches-same w w refl }

  pub disable_offer-Runs : (r : Text) → Runs (Offers.disable_offer wallet r)
  unfolding Offers.disable_offer
  disable_offer-Runs r = record {
    at = λ w. elim (Option-cases (Offers.parse_offer_id wallet.ldk.lib r)) [
      | inl e ↦ rw (e, Offers.disable_offer) (Reaches-same w w refl)
      | inr (id, e) ↦ elim (Option-cases (find_by_offer_id id w.offers)) [
        | inl d ↦ rw (e, d, Offers.disable_offer) (Reaches-same w w refl)
        | inr (offer, d) ↦
            rw (e, d, Offers.disable_offer) ((deactivate_offer-Runs {E = NncError} offer).at w)
      ]
    ];
  }

  with_invoice-Reaches :
      (w v : World S) (made : Types.Uri × Bool) (r : Outcome LdkServiceError LdkInvoiceResult)
      → Reaches w v
      → Reaches w (Receive.with_invoice wallet made (r, v)).1
  unfolding Receive.with_invoice
  with_invoice-Reaches w v (uri, any) (ok inv) h = h
  with_invoice-Reaches w v (uri, any) (err e) h = h
  with_invoice-Reaches w v (uri, any) panic h = h
  with_invoice-Reaches w v (uri, any) out_of_fuel h = h

  with_offer-Reaches :
      (w v : World S) (desc : Text) (amount : ℕ) (made : Types.Uri × Bool)
      (r : Outcome LdkServiceError Text)
      → Reaches w v
      → Reaches w (Receive.with_offer wallet desc amount made (r, v)).1
  unfolding Receive.with_offer
  with_offer-Reaches w v desc amount (uri, any) (ok offer) h = Reaches-trans w v _ h (
      (store_offer-Runs {E = NncError} offer desc amount
          (Offers.offer_id_of wallet.ldk.lib offer)).at
        v)
  with_offer-Reaches w v desc amount (uri, any) (err e) h = h
  with_offer-Reaches w v desc amount (uri, any) panic h = h
  with_offer-Reaches w v desc amount (uri, any) out_of_fuel h = h

  with_new_address-Reaches :
      (w v : World S) (made : Types.Uri × Bool) (r : Outcome LdkServiceError Text)
      → Reaches w v
      → Reaches w (Receive.with_new_address wallet made (r, v)).1
  unfolding Receive.with_new_address
  with_new_address-Reaches w v (uri, any) (ok a) h =
      Reaches-trans w v _ h ((remember_address-Runs {E = NncError} a).at v)
  with_new_address-Reaches w v (uri, any) (err e) h = h
  with_new_address-Reaches w v (uri, any) panic h = h
  with_new_address-Reaches w v (uri, any) out_of_fuel h = h

  add_bolt11-Runs :
      (r : Receive.ReceiveRequest) (entry : Receive.Bip321Method) (made : Types.Uri × Bool)
      → Runs (Receive.add_bolt11 wallet r entry made)
  unfolding Receive.add_bolt11
  add_bolt11-Runs r entry made = record {
    at = λ w. elim (Option-cases r.amount) [
      | inl e ↦ rw (e, Receive.add_bolt11) (Reaches-same w w refl)
      | inr (amount, e) ↦
          let made_invoice =
            Invoices.make_invoice wallet.ldk amount r.description none entry.expiry in
          rw (e, Receive.add_bolt11)
            (with_invoice-Reaches w (made_invoice w).1 made (made_invoice w).0
              ((make_invoice-Runs wallet.ldk amount r.description none entry.expiry).at w))
    ];
  }

  add_bolt12-Runs :
      (r : Receive.ReceiveRequest) (entry : Receive.Bip321Method) (made : Types.Uri × Bool)
      → Runs (Receive.add_bolt12 wallet r entry made)
  unfolding Receive.add_bolt12
  add_bolt12-Runs r entry made = record {
    at = λ w. with_offer-Reaches w _ _ _ made _ ((make_ldk_offer-Runs wallet.ldk _ _ _).at w);
  }

  add_onchain-Runs :
      (entry : Receive.Bip321Method) (made : Types.Uri × Bool)
      → Runs (Receive.add_onchain wallet entry made)
  unfolding Receive.add_onchain
  add_onchain-Runs entry made = record {
    at = λ w. elim (Bool-cases (Addresses.asks_other_type entry.address_type)) [
      | inl other ↦ rw (other, Receive.add_onchain) (Reaches-same w w refl)
      | inr p2tr ↦
          rw (p2tr, Receive.add_onchain)
            (with_new_address-Reaches w _ made _ ((new_onchain_address-Runs wallet.ldk).at w))
    ];
  }

  add_entries-Runs :
      (r : Receive.ReceiveRequest) (entries : List Receive.Bip321Method) (made : Types.Uri × Bool)
      → Runs (Receive.add_entries wallet r entries made)
  unfolding Receive.add_entries Receive.add_entry
  add_entries-Runs r [] made = Runs-pure made
  add_entries-Runs r (entry ∷ entries) made =
      Runs-bind (Receive.add_entry wallet r entry made) _
        (search (table_rules, add_bolt11-Runs, add_bolt12-Runs, add_onchain-Runs))
        (λ next. add_entries-Runs r entries next)

  finish_uri-Runs : (made : Types.Uri × Bool) → Runs (Receive.finish_uri wallet made)
  unfolding Receive.finish_uri
  finish_uri-Runs (uri, true) = search table_rules
  finish_uri-Runs (uri, false) = search table_rules

  pub receive-Runs : (r : Receive.ReceiveRequest) → Runs (Receive.receive wallet r)
  unfolding Receive.receive
  receive-Runs r = search (table_rules, add_entries-Runs, finish_uri-Runs)
