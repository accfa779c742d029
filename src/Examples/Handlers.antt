-- ===== src/Examples/Handlers.antt =====
-- The theorems on the handlers, on the sample node.
use dln_node_knots.Prelude.{◌+◌, ◌*◌, false, Option, none, some, List, [], ◌∷◌, ◌≡◌, ◌≢◌, refl, All}
use dln_node_knots.Prelude.Outcome.{ok}
use dln_node_knots.Text.{Text, codes, text_eq, trim}
use dln_node_knots.Text.Number.{hex_byte, hex_digit}
use dln_node_knots.Hex.{hex_string}
use dln_node_knots.State.Offers.{
  OfferRecord, new_offer, get_offer, find_by_offer_id, disable_offer as disable_stored, disabled,
}
use dln_node_knots.TextMap.{get, update}
use dln_node_knots.Ldk.{World}
use dln_node_knots.Ldk.Send.{
  pay_invoice as send_payment, send_invoice, sync_wallets, make_offer as issue_offer,
}
use dln_node_knots.Ldk.Balance.{get_balance as read_balance}
use dln_node_knots.Ldk.Wait.{
  wait_for_outbound_payment, wait_loop, rounds_for, timeout_secs, poll_outcome, is_sent,
  preimage_of,
}
use dln_node_knots.Ldk.History.{same_direction}
use dln_node_knots.Wallet.Core.{
  pay_invoice, PayInvoiceRequest, PaidResponse, get_balance, GetBalanceResponse,
}
use dln_node_knots.Wallet.Core.Payments.{Paid, pay_invoice-Paid, get_balance-exact}
use dln_node_knots.Wallet.Lookup.{ListInvoicesRequest, InvoiceState, InvoiceRecord, list_invoices}
use dln_node_knots.Wallet.Lookup.Answers.{Hides, list_invoices-Hides, list_invoices_expired}
use dln_node_knots.Wallet.Offers.{
  disable_offer, parse_offer_id, make_offer, MakeOfferRequest, MakeOfferResponse, expiry_in,
  offer_id_of,
}
use dln_node_knots.Wallet.Offers.Disable.{disable_offer_off, IsMade, make_offer-IsMade}
use dln_node_knots.Examples.Samples.{Machine, node, service, wallet, world, preimage_bytes}

abbrev request : PayInvoiceRequest
request = record { invoice = codes " lnbcrt "; amount = some 900 }

-- The response to it.
abbrev response : PaidResponse
response = record { preimage = codes "ab"; fees_paid = some 7 }

pay_invoice-Paid_example :
    (request.amount ≢ some 0)
    × Paid wallet.ldk
        (trim request.invoice)
        request.amount
        world
        (pay_invoice wallet request world).1
        (record { preimage = response.preimage; fees_paid_msat = response.fees_paid })
unfolding pay_invoice send_payment send_invoice wait_for_outbound_payment wait_loop rounds_for
    timeout_secs poll_outcome is_sent same_direction preimage_of hex_string hex_byte hex_digit trim
    codes text_eq
pay_invoice-Paid_example =
    pay_invoice-Paid wallet request world (pay_invoice wallet request world).1 response refl

abbrev figures : GetBalanceResponse
figures = record {
  balance = 2540000;
  lightning_balance = some 40000;
  onchain_balance_sats = some 2500;
}

get_balance-exact_example :
    (synced : World Machine) × (sync_wallets service world ≡ (ok tt, synced))
    × (figures.onchain_balance_sats
        ≡ some (node.list_balances synced.node).0.spendable_onchain_balance_sats)
    × (figures.lightning_balance
        ≡ some ((node.list_balances synced.node).0.total_lightning_balance_sats * 1_000))
    × (figures.balance
        ≡ ((node.list_balances synced.node).0.spendable_onchain_balance_sats
            + (node.list_balances synced.node).0.total_lightning_balance_sats)
          * 1_000)
unfolding get_balance sync_wallets read_balance
get_balance-exact_example = get_balance-exact wallet world world figures refl

abbrev invoices_request : Option InvoiceState → ListInvoicesRequest
invoices_request state = record {
  from = none;
  until = none;
  limit = some 10;
  offset = none;
  state = state;
}

list_invoices-Hides_example :
    (records : List InvoiceRecord) × ((list_invoices wallet (invoices_request none) world).0
      ≡ ok records)
    × All Hides records
list_invoices-Hides_example = list_invoices-Hides wallet (invoices_request none) world

list_invoices_expired_example :
    (list_invoices wallet (invoices_request (some InvoiceState.expired)) world).0 ≡ ok []
list_invoices_expired_example =
    list_invoices_expired wallet (invoices_request (some InvoiceState.expired)) world refl

-- An offer with an id of 32 bytes.
abbrev offer_name : Text
offer_name = 108 ∷ []

abbrev offer : OfferRecord
offer = new_offer offer_name [] 5000 preimage_bytes

abbrev offering : World Machine
offering = record world { offers = (offer_name, offer) ∷ [] }

abbrev disabled_world : World Machine
disabled_world = record world { offers = (offer_name, disabled offer) ∷ [] }

disable_offer_off_example :
    (name : Text) × (r : OfferRecord) × (get_offer name offering.offers ≡ some r)
    × (parse_offer_id wallet.ldk.lib preimage_bytes ≡ some r.offer_id)
    × (get_offer name disabled_world.offers ≡ some (record r { active = false }))
    × ((other : Text)
        → other ≢ name
        → get_offer other disabled_world.offers ≡ get_offer other offering.offers)
unfolding disable_offer parse_offer_id find_by_offer_id disable_stored text_eq update get
disable_offer_off_example =
    disable_offer_off wallet preimage_bytes offering disabled_world
      (record { distinct = (refl, tt); filed = (refl, tt) }) refl

abbrev offer_request : MakeOfferRequest
offer_request = record {
  amount = some 5;
  description = some (codes "tea");
  issuer = none;
  single_use = none;
  expires_at = some 4000;
}

abbrev made_offer : MakeOfferResponse
made_offer = record {
  offer_id = hex_string (codes "lno1");
  offer = codes "lno1";
  amount = some 5;
  description = some (codes "tea");
  issuer = none;
  single_use = false;
  created_at = 100;
  expires_at = some 4000;
}

make_offer-IsMade_example :
    IsMade wallet offer_request world (make_offer wallet offer_request world).1 made_offer
unfolding make_offer expiry_in issue_offer offer_id_of
make_offer-IsMade_example =
    make_offer-IsMade wallet offer_request world (make_offer wallet offer_request world).1
      made_offer refl
