-- ===== src/Server/Methods.antt =====
-- The effect on the tables of the methods of LdkService (src/lightning/ldk_service.rs).
use dln_node_knots.Prelude.{
  ℕ, zero, suc, ◌-◌, Bool, Option, none, some, [], refl, ltb, Option-cases, Bool-cases, inl, inr,
}
use dln_node_knots.Prelude.Outcome.{to_option}
use dln_node_knots.Text.{Bytes, Text}
use dln_node_knots.Node.Types.{Invoice}
use dln_node_knots.Ldk.{LdkService}
use dln_node_knots.Ldk.Wait.{wait_loop, wait_for_outbound_payment, poll_outcome}
use dln_node_knots.Ldk.Wait.Step.{now, after_sleep, wait_loop_paid, wait_loop_late, wait_loop_again}
use dln_node_knots.Ldk.Send
use dln_node_knots.Ldk.Invoices
use dln_node_knots.Ldk.Balance
use dln_node_knots.Ldk.Channels
use dln_node_knots.Ldk.Graph
use dln_node_knots.Ldk.History
use dln_node_knots.Ldk.Routes
use dln_node_knots.Server.Runs.{Runs, runs_rules, Runs-pure, Reaches, Reaches-same, Reaches-trans}

module _ {S : Type 0} (ldk : LdkService S) where
  wait_loop-Runs :
      (rounds : ℕ) (id : Bytes) (start timeout : ℕ) → Runs (wait_loop ldk rounds id start timeout)
  unfolding wait_loop
  wait_loop-Runs zero id start timeout = record { at = λ w. Reaches-same w w refl }
  wait_loop-Runs (suc rounds) id start timeout = record {
    at = λ w. elim (Option-cases (poll_outcome id (ldk.node.list_payments w.node).0)) [
      | inr (r, e) ↦ rw (wait_loop_paid ldk rounds id start timeout w r e) (Reaches-same w _ refl)
      | inl e ↦ elim (Bool-cases (ltb timeout (now ldk rounds id start timeout w - start))) [
        | inl late ↦
            rw (wait_loop_late ldk rounds id start timeout w e late) (Reaches-same w _ refl)
        | inr early ↦
            let v = record w { node = after_sleep ldk rounds id start timeout w } in
            rw (wait_loop_again ldk rounds id start timeout w e early) (
              Reaches-trans w v _ (Reaches-same w v refl)
                ((wait_loop-Runs rounds id start timeout).at v))
      ]
    ];
  }

  wait-Runs : (id : Bytes) → Runs (wait_for_outbound_payment ldk id)
  unfolding wait_for_outbound_payment
  wait-Runs id = search (runs_rules, wait_loop-Runs)

  send_invoice-Runs : (i : Invoice) (amount : Option ℕ) → Runs (Send.send_invoice ldk i amount)
  unfolding Send.send_invoice
  send_invoice-Runs i none = search runs_rules
  send_invoice-Runs i (some amount) = search runs_rules

  pub pay_invoice-Runs : (i : Text) (amount : Option ℕ) → Runs (Send.pay_invoice ldk i amount)
  unfolding Send.pay_invoice
  pay_invoice-Runs i amount = search (runs_rules, send_invoice-Runs, wait-Runs)

  pub pay_keysend-Runs : (dest : Text) (amount : ℕ) → Runs (Send.pay_keysend ldk dest amount)
  unfolding Send.pay_keysend
  pay_keysend-Runs dest amount = search (runs_rules, wait-Runs) depth 8

  pub pay_onchain-Runs :
      (a : Text) (sats : ℕ) (rate : Option ℕ) → Runs (Send.pay_onchain ldk a sats rate)
  unfolding Send.pay_onchain
  pay_onchain-Runs a sats rate = search runs_rules

  pub make_offer-Runs :
      (amount : ℕ) (desc : Text) (expiry : Option ℕ) → Runs (Send.make_offer ldk amount desc expiry)
  unfolding Send.make_offer
  make_offer-Runs amount desc expiry = search runs_rules

  pub pay_offer-Runs :
      (offer : Text) (amount : Option ℕ) (memo : Option Text)
      → Runs (Send.pay_offer ldk offer amount memo)
  unfolding Send.pay_offer
  pay_offer-Runs offer amount memo = search (runs_rules, wait-Runs)

  pub new_onchain_address-Runs : Runs (Send.new_onchain_address ldk)
  unfolding Send.new_onchain_address
  new_onchain_address-Runs = search runs_rules

  pub sync_wallets-Runs : Runs (Send.sync_wallets ldk)
  unfolding Send.sync_wallets
  sync_wallets-Runs = search runs_rules

  pub lookup_by_hash-Runs : (hash : Text) → Runs (Send.lookup_payment_by_hash ldk hash)
  unfolding Send.lookup_payment_by_hash
  lookup_by_hash-Runs hash = search runs_rules depth 8

  pub lookup_by_bolt11-Runs : (i : Text) → Runs (Send.lookup_payment_by_bolt11 ldk i)
  unfolding Send.lookup_payment_by_bolt11
  lookup_by_bolt11-Runs i = search (runs_rules, lookup_by_hash-Runs)

  pub make_invoice-Runs :
      (amount : ℕ) (desc hash : Option Text) (expiry : Option ℕ)
      → Runs (Invoices.make_invoice ldk amount desc hash expiry)
  unfolding Invoices.make_invoice
  make_invoice-Runs amount desc hash expiry = search runs_rules depth 9

  pub make_hold_invoice-Runs :
      (amount : ℕ) (desc : Option Text) (expiry : Option ℕ) (hash : Text)
      → Runs (Invoices.make_hold_invoice ldk amount desc expiry hash)
  unfolding Invoices.make_hold_invoice
  make_hold_invoice-Runs amount desc expiry hash = search runs_rules depth 9

  pub settle_hold_invoice-Runs :
      (preimage : Text) → Runs (Invoices.settle_hold_invoice ldk preimage)
  unfolding Invoices.settle_hold_invoice
  settle_hold_invoice-Runs preimage = search runs_rules depth 8

  pub cancel_hold_invoice-Runs : (hash : Text) → Runs (Invoices.cancel_hold_invoice ldk hash)
  unfolding Invoices.cancel_hold_invoice
  cancel_hold_invoice-Runs hash = search runs_rules

  pub get_balance-Runs : Runs (Balance.get_balance ldk)
  unfolding Balance.get_balance
  get_balance-Runs = search runs_rules depth 8

  pub open_channel-Runs :
      (key addr : Text) (sats : ℕ) (push : Option ℕ)
      → Runs (Channels.open_channel ldk key addr sats push)
  unfolding Channels.open_channel
  open_channel-Runs key addr sats push = search runs_rules

  pub connect_peer-Runs : (key addr : Text) → Runs (Channels.connect_peer ldk key addr)
  unfolding Channels.connect_peer
  connect_peer-Runs key addr = search runs_rules

  pub disconnect_peer-Runs : (key : Text) → Runs (Channels.disconnect_peer ldk key)
  unfolding Channels.disconnect_peer
  disconnect_peer-Runs key = search runs_rules

  pub close_channel-Runs : (id : Text) (force : Bool) → Runs (Channels.close_channel ldk id force)
  unfolding Channels.close_channel Channels.close_found
  close_channel-Runs id force = search runs_rules depth 8

  pub set_channel_fees-Runs :
      (id : Text) (base rate : Option ℕ) → Runs (Channels.set_channel_fees ldk id base rate)
  unfolding Channels.set_channel_fees
  set_channel_fees-Runs id base rate = search runs_rules

  pub get_network_node-Runs : (key : Text) → Runs (Graph.get_network_node ldk key)
  unfolding Graph.get_network_node
  get_network_node-Runs key = search runs_rules

  pub get_network_channel-Runs : (scid : Text) → Runs (Graph.get_network_channel ldk scid)
  unfolding Graph.get_network_channel
  get_network_channel-Runs scid = search runs_rules

module _ {S E : Type 0} (ldk : LdkService S) where
  pub list_channels-Runs : Runs (Channels.list_channels {E = E} ldk)
  unfolding Channels.list_channels
  list_channels-Runs = search runs_rules

  pub list_peers-Runs : Runs (Channels.list_peers {E = E} ldk)
  unfolding Channels.list_peers
  list_peers-Runs = search runs_rules

  pub get_channel_fees-Runs : (id : Option Text) → Runs (Channels.get_channel_fees {E = E} ldk id)
  unfolding Channels.get_channel_fees
  get_channel_fees-Runs id = search runs_rules

  pub list_network_nodes-Runs :
      (limit offset : ℕ) → Runs (Graph.list_network_nodes {E = E} ldk limit offset)
  unfolding Graph.list_network_nodes
  list_network_nodes-Runs limit offset = search runs_rules

  pub get_network_stats-Runs : Runs (Graph.get_network_stats {E = E} ldk)
  unfolding Graph.get_network_stats
  get_network_stats-Runs = search runs_rules

  pub list_payments-Runs : (q : History.Query) → Runs (History.list_payments_filtered {E = E} ldk q)
  unfolding History.list_payments_filtered
  list_payments-Runs q = search runs_rules

  pub find_routes-Runs :
      (dest : Text) (amount max_routes : ℕ)
      → Runs (Routes.find_routes {E = E} ldk dest amount max_routes)
  unfolding Routes.find_routes
  find_routes-Runs dest amount max_routes =
      elim (Option-cases (to_option (ldk.lib.parse_public_key dest))) [
        | inl e ↦ rw (e, Routes.find_routes) (Runs-pure [])
        | inr (pk, e) ↦ rw (e, Routes.find_routes) (search runs_rules depth 8)
      ]

pub ruleset method_rules = (
  runs_rules, pay_invoice-Runs, pay_keysend-Runs, pay_onchain-Runs, make_offer-Runs, pay_offer-Runs,
  new_onchain_address-Runs, sync_wallets-Runs, lookup_by_hash-Runs, lookup_by_bolt11-Runs,
  make_invoice-Runs, make_hold_invoice-Runs, settle_hold_invoice-Runs, cancel_hold_invoice-Runs,
  get_balance-Runs, open_channel-Runs, connect_peer-Runs, disconnect_peer-Runs, close_channel-Runs,
  set_channel_fees-Runs, get_network_node-Runs, get_network_channel-Runs, list_channels-Runs,
  list_peers-Runs, get_channel_fees-Runs, list_network_nodes-Runs, get_network_stats-Runs,
  list_payments-Runs, find_routes-Runs,
)
