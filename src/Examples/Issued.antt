-- ===== src/Examples/Issued.antt =====
-- The theorems on addresses, URIs, channels and events, on the sample node.
use dln_node_knots.Prelude.{◌*◌, true, none, some, List, [], ◌∷◌, ◌≡◌, refl, arith}
use dln_node_knots.Prelude.Outcome.{ok}
use dln_node_knots.Text.{Text, codes, text_eq}
use dln_node_knots.Hex.{hex_string}
use dln_node_knots.Ldk.Send.{make_offer as issue_offer, new_onchain_address}
use dln_node_knots.Ldk.Channels.{
  set_channel_fees as update_fees, find_channel, has_id, channel_info,
}
use dln_node_knots.Wallet.Addresses.{
  make_new_address, lookup_address, address_response, MakeNewAddressResponse,
}
use dln_node_knots.Wallet.Addresses.Watched.{
  lookup_address-make_new_address, record_or_new, IsReported,
}
use dln_node_knots.Wallet.Uri.{paid, PayResponse}
use dln_node_knots.Wallet.Uri.Paid.{paid-hash}
use dln_node_knots.Wallet.Receive.{
  receive, ReceiveRequest, new_uri, default_methods, finish_uri, add_entries, add_entry, add_bolt11,
  add_bolt12, add_onchain, with_invoice, with_offer, with_new_address,
}
use dln_node_knots.Ldk.Invoices.{make_invoice, expiry_u32}
use dln_node_knots.Wallet.Receive.Issued.{IsRemembered, receive-IsRemembered}
use dln_node_knots.Control.{SetChannelFeesRequest, set_channel_fees, to_channel}
use dln_node_knots.Control.States.{state_by_flags, to_channel-channel_info}
use dln_node_knots.Control.Fees.{HasFees, set_channel_fees-HasFees}
use dln_node_knots.Events.{payment_forwarded, payment_received, Event}
use dln_node_knots.Examples.Samples.{channel, service, wallet, world, preimage_bytes}

abbrev made_address : MakeNewAddressResponse
made_address = record { address = codes "bcrt1p"; address_type = codes "p2tr" }

lookup_address-make_new_address_example :
    (lookup_address wallet made_address.address (make_new_address wallet none world).1 ≡ (
      ok (address_response (record_or_new made_address.address world.addresses)),
      (make_new_address wallet none world).1,
    ))
    × IsReported
        (record_or_new made_address.address world.addresses)
        (address_response (record_or_new made_address.address world.addresses))
unfolding make_new_address new_onchain_address
lookup_address-make_new_address_example =
    lookup_address-make_new_address wallet none world (make_new_address wallet none world).1
      made_address refl

paid-hash_example :
    (res : PayResponse) × ((paid wallet
        (codes "bolt11")
        1000
        (some (hex_string preimage_bytes))
        none
        7
        world).0
      ≡ ok res)
    × (res.transaction_id ≡ wallet.ldk.lib.sha256_text preimage_bytes)
    × (res.payment_hash ≡ some (wallet.ldk.lib.sha256_text preimage_bytes))
    × (res.preimage ≡ some (hex_string preimage_bytes))
    × (res.state ≡ codes "settled")
    × (res.instruction_type ≡ codes "bolt11")
    × (res.amount ≡ 1000)
    × (res.fees_paid ≡ 7)
    × (res.payer_proof ≡ none)
    × (res.txid ≡ none)
    × (res.failure_reason ≡ none)
    × (res.created_at ≡ 100)
    × (res.settled_at ≡ some 100)
paid-hash_example =
    paid-hash wallet (codes "bolt11") 1000 preimage_bytes 7 world refl (ground arith)

abbrev receive_request : ReceiveRequest
receive_request = record { amount = some 1000; label = none; description = none; methods = none }

receive-IsRemembered_example :
    IsRemembered wallet (codes "bitcoin:") (receive wallet receive_request world).1
unfolding receive new_uri default_methods finish_uri add_entries add_entry add_bolt11 add_bolt12
    add_onchain with_invoice with_offer with_new_address make_invoice expiry_u32 issue_offer
    new_onchain_address codes text_eq
receive-IsRemembered_example =
    receive-IsRemembered wallet receive_request world (receive wallet receive_request world).1
      (codes "bitcoin:") refl

abbrev fees_request : SetChannelFeesRequest
fees_request = record {
  id = some (9 ∷ []);
  base_fee = some 5000000000;
  fee_rate = some 3;
  min_htlc = none;
  max_htlc = none;
}

-- The base fee does not fit in a u32.
set_channel_fees-HasFees_example :
    (id : Text) × (fees_request.id ≡ some id)
    × (fees_request.min_htlc ≡ none)
    × (fees_request.max_htlc ≡ none)
    × HasFees service fees_request id world (set_channel_fees service fees_request world).1
unfolding set_channel_fees update_fees find_channel has_id text_eq
set_channel_fees-HasFees_example =
    set_channel_fees-HasFees service fees_request world
      (set_channel_fees service fees_request world).1 refl

abbrev events : List Event
events =
    payment_forwarded (1 ∷ []) (2 ∷ []) (some 10) (some 1000) ∷ payment_received (3 ∷ []) 5 ∷ []

to_channel-channel_info_example :
    ((to_channel (channel_info service.lib channel)).state ≡ some (state_by_flags true true))
    × ((to_channel (channel_info service.lib channel)).capacity ≡ some (100000 * 1000))
to_channel-channel_info_example = to_channel-channel_info service.lib channel (omega arith)
