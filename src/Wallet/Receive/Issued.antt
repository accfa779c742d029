-- ===== src/Wallet/Receive/Issued.antt =====
-- The URI that `receive` (src/wallet.rs) builds, against the tables.
use dln_node_knots.Prelude.{
  ℕ, Bool, true, false, Option, none, some, List, [], ◌∷◌, ◌≡◌, refl, ap, sym, subst, arith, inl,
  inr, All, unwrap_or, Bool-cases, Option-cases,
}
use dln_node_knots.Prelude.Outcome.{Outcome, ok, err, panic, out_of_fuel, to_option}
use dln_node_knots.Prelude.Act.{follow}
use dln_node_knots.Text.{Text, codes, text_eq}
use dln_node_knots.TextMap.Laws.{}
use dln_node_knots.State.Addresses.{register_address}
use dln_node_knots.Node.Types.{Uri, Address}
use dln_node_knots.Ldk.{World}
use dln_node_knots.Ldk.Send
use dln_node_knots.Ldk.Invoices
use dln_node_knots.Ldk.Invoices.{LdkInvoiceResult}
use dln_node_knots.Ldk.Errors.{LdkServiceError}
use dln_node_knots.Nnc.{NncError}
use dln_node_knots.Wallet.{Wallet}
use dln_node_knots.Wallet.Addresses.{asks_other_type}
use dln_node_knots.Wallet.Offers.{offer_id_of}
use dln_node_knots.Wallet.Receive.{
  ReceiveRequest, Bip321Method, add_bolt11, add_bolt12, add_onchain, add_entry, add_entries,
  receive, new_uri, default_methods, finish_uri, with_invoice, with_offer, with_new_address,
  with_address,
}
use dln_node_knots.Wallet.Receive.Known.{
  insert-IsKnownOffer, register-IsKnownAddress, register-IsKnown, has_invoice, has_offer,
  has_address, make_invoice-tables, IsKnownOffer, IsKnownAddress, has_instruction, IsIssued,
}

module _ {S : Type 0} (wallet : Wallet S) where
  -- What a handler leaves that goes on with the URI.
  abbrev pub Issues : Outcome NncError (Uri × Bool) × World S → Type 0
  Issues (ok made, w) = IsIssued made w.offers w.addresses
  Issues (_, w) = Unit {0}

  with_invoice-Issues :
      (made : Uri × Bool) (p : Outcome LdkServiceError LdkInvoiceResult × World S)
      → IsIssued made p.1.offers p.1.addresses
      → Issues (with_invoice wallet made p)
  unfolding with_invoice
  with_invoice-Issues (uri, any) (ok inv, w) v = (sym (has_invoice uri inv.invoice), v.1, v.2)
  with_invoice-Issues made (err e, w) v = v
  with_invoice-Issues made (panic, w) v = tt
  with_invoice-Issues made (out_of_fuel, w) v = tt

  with_offer-Issues :
      (desc : Text) (amount : ℕ) (made : Uri × Bool) (p : Outcome LdkServiceError Text × World S)
      → IsIssued made p.1.offers p.1.addresses
      → Issues (with_offer wallet desc amount made p)
  unfolding with_offer
  with_offer-Issues desc amount (uri, any) (ok offer, w) v = (
    sym (has_offer uri offer),
    insert-IsKnownOffer offer desc amount (offer_id_of wallet.ldk.lib offer) w.offers uri.lno v.1,
    v.2,
  )
  with_offer-Issues desc amount made (err e, w) v = v
  with_offer-Issues desc amount made (panic, w) v = tt
  with_offer-Issues desc amount made (out_of_fuel, w) v = tt

  with_address-IsIssued :
      (made : Uri × Bool) (addr : Text) (parsed : Option Address) (w : World S)
      → IsIssued made w.offers w.addresses
      → IsIssued (with_address made addr parsed) w.offers (register_address addr w.addresses)
  with_address-IsIssued (uri, any) addr none w v =
      (v.0, v.1, register-IsKnownAddress addr w.addresses uri.address_str v.2)
  with_address-IsIssued (uri, any) addr (some a) w v =
      (sym (has_address uri a addr), v.1, register-IsKnown addr w.addresses)

  with_new_address-Issues :
      (made : Uri × Bool) (p : Outcome LdkServiceError Text × World S)
      → IsIssued made p.1.offers p.1.addresses
      → Issues (with_new_address wallet made p)
  unfolding with_new_address
  with_new_address-Issues made (ok addr, w) v =
      with_address-IsIssued made addr (to_option (wallet.ldk.lib.parse_address addr)) w v
  with_new_address-Issues made (err e, w) v = v
  with_new_address-Issues made (panic, w) v = tt
  with_new_address-Issues made (out_of_fuel, w) v = tt

  add_bolt11-Issues :
      (r : ReceiveRequest) (entry : Bip321Method) (made : Uri × Bool) (w : World S)
      → IsIssued made w.offers w.addresses
      → Issues (add_bolt11 wallet r entry made w)
  unfolding add_bolt11
  add_bolt11-Issues r entry made w v = elim (Option-cases r.amount) [
    | inl none_given ↦ rw none_given v
    | inr (amount, given) ↦
        let (offers_kept, addresses_kept) =
          make_invoice-tables wallet.ldk amount r.description none entry.expiry w in
        rw given (
          with_invoice-Issues made
            (Invoices.make_invoice wallet.ldk amount r.description none entry.expiry w)
            (rw (offers_kept, addresses_kept) v))
  ]

  add_entry-Issues :
      (r : ReceiveRequest) (entry : Bip321Method) (made : Uri × Bool) (w : World S)
      → IsIssued made w.offers w.addresses
      → Issues (add_entry wallet r entry made w)
  unfolding add_entry add_bolt12 add_onchain Send.make_offer Send.new_onchain_address
  add_entry-Issues r entry made w v = elim (Bool-cases (text_eq entry.method (codes "bolt11"))) [
    | inl invoice ↦ rw invoice (add_bolt11-Issues r entry made w v)
    | inr other ↦ elim (Bool-cases (text_eq entry.method (codes "bolt12"))) [
      | inl offer ↦ rw (other, offer) (with_offer-Issues _ _ made _ v)
      | inr neither ↦ elim (Bool-cases (text_eq entry.method (codes "onchain"))) [
        | inl address ↦ elim (Bool-cases (asks_other_type entry.address_type)) [
          | inl refused ↦ rw (other, neither, address, refused) v
          | inr accepted ↦ rw (other, neither, address, accepted) (with_new_address-Issues made _ v)
        ]
        | inr unsupported ↦ rw (other, neither, unsupported) v
      ]
    ]
  ]

  follow-Issues :
      (r : ReceiveRequest) (entries : List Bip321Method)
      (p : Outcome NncError (Uri × Bool) × World S)
      → ((made : Uri × Bool) (w : World S)
          → IsIssued made w.offers w.addresses
          → Issues (add_entries wallet r entries made w))
      → Issues p
      → Issues (follow p (add_entries wallet r entries))
  follow-Issues r entries (ok made, w) ih v = ih made w v
  follow-Issues r entries (err e, w) ih v = tt
  follow-Issues r entries (panic, w) ih v = tt
  follow-Issues r entries (out_of_fuel, w) ih v = tt

  add_entries-Issues :
      (r : ReceiveRequest) (entries : List Bip321Method) (made : Uri × Bool) (w : World S)
      → IsIssued made w.offers w.addresses
      → Issues (add_entries wallet r entries made w)
  unfolding add_entries
  add_entries-Issues r [] made w v = v
  add_entries-Issues r (entry ∷ entries) made w v =
      follow-Issues r entries (add_entry wallet r entry made w) (add_entries-Issues r entries)
        (add_entry-Issues r entry made w v)

  -- The text of a URI with some instruction, whose offers and address the tables know.
  abbrev pub IsRemembered : Text → World S → Type 0
  IsRemembered text w =
      (uri : Uri) × (text ≡ wallet.ldk.lib.show_uri uri)
      × (has_instruction uri ≡ true)
      × All (IsKnownOffer w.offers) uri.lno
      × IsKnownAddress w.addresses uri.address_str

  finish_uri-IsRemembered :
      (p : Outcome NncError (Uri × Bool) × World S) (text : Text) (w' : World S)
      → Issues p
      → follow p (finish_uri wallet) ≡ (ok text, w')
      → IsRemembered text w'
  unfolding finish_uri
  finish_uri-IsRemembered (ok (uri, true), w) text w' v e =
      subst (IsRemembered text) (ap (λ q. q.1) e) (uri, ground arith, sym v.0, v.1, v.2)
  finish_uri-IsRemembered (ok (uri, false), w) text w' v e = absurd (ground arith)
  finish_uri-IsRemembered (err e', w) text w' v e = absurd (ground arith)
  finish_uri-IsRemembered (panic, w) text w' v e = absurd (ground arith)
  finish_uri-IsRemembered (out_of_fuel, w) text w' v e = absurd (ground arith)

  -- When `receive` answers with a text, it is that of a URI with at least one instruction; every
  -- offer in the URI is in the offer table afterwards, and its on-chain address, where it has one,
  -- in the address table.
  pub receive-IsRemembered :
      (r : ReceiveRequest) (w w' : World S) (text : Text)
      → receive wallet r w ≡ (ok text, w')
      → IsRemembered text w'
  unfolding receive new_uri
  receive-IsRemembered r w w' text h =
      finish_uri-IsRemembered _ text w'
        (add_entries-Issues r (unwrap_or r.methods default_methods) (new_uri r, false) w
          (refl, tt, tt))
        h
