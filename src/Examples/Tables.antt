-- ===== src/Examples/Tables.antt =====
-- The theorems on the three tables, at concrete inputs.
use dln_node_knots.Prelude.{
  ◌+◌, none, some, [], ◌∷◌, ◌++◌, ◌≡◌, refl, arith, length, if◌then◌else◌, map_option, is_some,
  wrap64, or_else,
}
use dln_node_knots.Text.{Text, text_eq}
use dln_node_knots.TextMap.{get}
use dln_node_knots.State.Offers.{
  OfferRecord, OfferStore, new_offer, get_offer, disable_offer, disabled,
}
use dln_node_knots.State.Offers.Invariant.{IsWellFormed, disable_offer_lem}
use dln_node_knots.State.Offers.Payments.{get_offer-record_all, record_all, amounts_to, sum}
use dln_node_knots.State.Addresses.{AddressStore, get_address, new_address, register_address}
use dln_node_knots.State.Addresses.Received.{register_address_lem}
use dln_node_knots.State.Forwarding.{ForwardingEntry, get_history, record_forward, in_window}
use dln_node_knots.State.Forwarding.Pages.{get_history-record_forward}

abbrev offer_name : Text
offer_name = 108 ∷ 110 ∷ 111 ∷ []

abbrev offer : OfferRecord
offer = new_offer offer_name (100 ∷ []) 5000 (1 ∷ 2 ∷ [])

abbrev offers : OfferStore
offers = (offer_name, offer) ∷ []

offers-IsWellFormed : IsWellFormed offers
unfolding get
offers-IsWellFormed = record { distinct = (refl, tt); filed = (refl, tt) }

disable_offer_lem_example :
    ((disable_offer offer_name offers).0 ≡ is_some (get_offer offer_name offers))
    × (get_offer offer_name (disable_offer offer_name offers).1 ≡ (
        if text_eq offer_name offer_name
        then map_option disabled (get_offer offer_name offers)
        else get_offer offer_name offers))
disable_offer_lem_example = disable_offer_lem offer_name offer_name offers

get_offer-record_all_example :
    get_offer offer_name (record_all ((offer_name, 7) ∷ (offer_name, 8) ∷ []) offers)
    ≡ some (record offer {
      num_payments_received = wrap64 (
          offer.num_payments_received
          + length (amounts_to offer_name ((offer_name, 7) ∷ (offer_name, 8) ∷ [])));
      total_received_msat = wrap64 (
          offer.total_received_msat
          + sum (amounts_to offer_name ((offer_name, 7) ∷ (offer_name, 8) ∷ [])));
    })
unfolding get_offer get text_eq
get_offer-record_all_example =
    get_offer-record_all offer_name ((offer_name, 7) ∷ (offer_name, 8) ∷ []) offers offer refl
      (omega arith) (omega arith)

abbrev address_name : Text
address_name = 98 ∷ 99 ∷ []

abbrev addresses : AddressStore
addresses = (address_name, new_address address_name) ∷ []

register_address_lem_example :
    get_address address_name (register_address address_name addresses) ≡ (
      if text_eq address_name address_name
      then or_else (get_address address_name addresses) (some (new_address address_name))
      else get_address address_name addresses)
register_address_lem_example = register_address_lem address_name address_name addresses

abbrev forward : ForwardingEntry
forward = record {
  incoming_channel_id = [];
  outgoing_channel_id = [];
  incoming_amount = 1010;
  outgoing_amount = 1000;
  fee_earned = 10;
  settled_at = 20;
}

get_history-record_forward_example :
    get_history none (some 9) (length (forward ∷ []) + 1) 0 (record_forward forward (forward ∷ []))
    ≡ get_history none (some 9) (length (forward ∷ [])) 0 (forward ∷ [])
      ++ (if in_window none (some 9) forward then forward ∷ [] else [])
get_history-record_forward_example = get_history-record_forward none (some 9) forward (forward ∷ [])
