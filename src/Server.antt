-- ===== src/Server.antt =====
-- The node as src/service.rs runs it: requests to the handlers of `Wallet` and of `Control`, and the
-- event pump, one turn after another. A handler's answer goes to its caller; here is what it leaves.
pub mod Runs
pub mod Methods
pub mod Handlers
pub mod Contents
pub mod Turns
pub mod Pump
use dln_node_knots.Prelude.{ℕ, Bool, Option, List, [], ◌∷◌}
use dln_node_knots.Prelude.Outcome.{Outcome}
use dln_node_knots.Text.{Text}
use dln_node_knots.Ldk.{LdkService, World}
use dln_node_knots.Wallet.{Wallet}
use dln_node_knots.Wallet.Core
use dln_node_knots.Wallet.Invoices
use dln_node_knots.Wallet.Lookup
use dln_node_knots.Wallet.Addresses
use dln_node_knots.Wallet.Offers
use dln_node_knots.Wallet.Uri
use dln_node_knots.Wallet.Receive
use dln_node_knots.Wallet.Quote
use dln_node_knots.Control
use dln_node_knots.Control.Network
use dln_node_knots.Control.Routes
use dln_node_knots.Events.{Event, handle}
use dln_node_knots.Events.Delivery.{Notifier, deliver}

-- A request to the wallet, with what its handler reads of it.
pub data WalletRequest : Type 0 where
  get_info get_balance list_addresses : WalletRequest
  pay_invoice : Core.PayInvoiceRequest → WalletRequest
  pay_keysend : Core.PayKeysendRequest → WalletRequest
  make_invoice : Invoices.MakeInvoiceRequest → WalletRequest
  make_hold_invoice : Invoices.MakeHoldInvoiceRequest → WalletRequest
  settle_hold_invoice cancel_hold_invoice : Text → WalletRequest
  lookup_invoice : Lookup.LookupInvoiceRequest → WalletRequest
  lookup_payment : Lookup.LookupPaymentRequest → WalletRequest
  list_transactions : Lookup.ListTransactionsRequest → WalletRequest
  list_invoices : Lookup.ListInvoicesRequest → WalletRequest
  pay_onchain : Addresses.PayOnchainRequest → WalletRequest
  make_new_address : Option Text → WalletRequest
  lookup_address : Text → WalletRequest
  make_offer : Offers.MakeOfferRequest → WalletRequest
  pay_offer : Offers.PayOfferRequest → WalletRequest
  list_offers : Option Bool → WalletRequest
  disable_offer : Text → WalletRequest
  pay : Uri.PayRequest → WalletRequest
  receive : Receive.ReceiveRequest → WalletRequest
  quote_payment : Quote.QuotePaymentRequest → WalletRequest

-- A request to the node's control.
pub data ControlRequest : Type 0 where
  list_channels list_peers get_network_stats : ControlRequest
  open_channel : Control.OpenChannelRequest → ControlRequest
  close_channel : Control.CloseChannelRequest → ControlRequest
  connect_peer : Control.ConnectPeerRequest → ControlRequest
  disconnect_peer : Text → ControlRequest
  get_channel_fees : Option Text → ControlRequest
  set_channel_fees : Control.SetChannelFeesRequest → ControlRequest
  query_routes : Routes.QueryRoutesRequest → ControlRequest
  get_forwarding_history : Control.GetForwardingHistoryRequest → ControlRequest
  list_network_nodes : Option ℕ → Option ℕ → ControlRequest
  get_network_node get_network_channel : Text → ControlRequest

-- One turn: a request that was let through, or a round of the event pump.
pub data Turn : Type 0 where
  wallet_turn : WalletRequest → Turn
  control_turn : ControlRequest → Turn
  pump_turn : Turn

module _ {S : Type 0} (wallet : Wallet S) where
  pub serve_wallet : WalletRequest → World S → World S
  serve_wallet get_info w = (Core.get_info wallet w).1
  serve_wallet get_balance w = (Core.get_balance wallet w).1
  serve_wallet list_addresses w = (Addresses.list_addresses wallet w).1
  serve_wallet (pay_invoice r) w = (Core.pay_invoice wallet r w).1
  serve_wallet (pay_keysend r) w = (Core.pay_keysend wallet r w).1
  serve_wallet (make_invoice r) w = (Invoices.make_invoice wallet r w).1
  serve_wallet (make_hold_invoice r) w = (Invoices.make_hold_invoice wallet r w).1
  serve_wallet (settle_hold_invoice r) w = (Invoices.settle_hold_invoice wallet r w).1
  serve_wallet (cancel_hold_invoice r) w = (Invoices.cancel_hold_invoice wallet r w).1
  serve_wallet (lookup_invoice r) w = (Lookup.lookup_invoice wallet r w).1
  serve_wallet (lookup_payment r) w = (Lookup.lookup_payment wallet r w).1
  serve_wallet (list_transactions r) w = (Lookup.list_transactions wallet r w).1
  serve_wallet (list_invoices r) w = (Lookup.list_invoices wallet r w).1
  serve_wallet (pay_onchain r) w = (Addresses.pay_onchain wallet r w).1
  serve_wallet (make_new_address r) w = (Addresses.make_new_address wallet r w).1
  serve_wallet (lookup_address r) w = (Addresses.lookup_address wallet r w).1
  serve_wallet (make_offer r) w = (Offers.make_offer wallet r w).1
  serve_wallet (pay_offer r) w = (Offers.pay_offer wallet r w).1
  serve_wallet (list_offers r) w = (Offers.list_offers wallet r w).1
  serve_wallet (disable_offer r) w = (Offers.disable_offer wallet r w).1
  serve_wallet (pay r) w = (Uri.pay wallet r w).1
  serve_wallet (receive r) w = (Receive.receive wallet r w).1
  serve_wallet (quote_payment r) w = (Quote.quote_payment wallet r w).1

  -- `Control` holds the same service.
  pub serve_control : ControlRequest → World S → World S
  serve_control list_channels w = (Control.list_channels wallet.ldk w).1
  serve_control list_peers w = (Control.list_peers wallet.ldk w).1
  serve_control get_network_stats w = (Network.get_network_stats wallet.ldk w).1
  serve_control (open_channel r) w = (Control.open_channel wallet.ldk r w).1
  serve_control (close_channel r) w = (Control.close_channel wallet.ldk r w).1
  serve_control (connect_peer r) w = (Control.connect_peer wallet.ldk r w).1
  serve_control (disconnect_peer r) w = (Control.disconnect_peer wallet.ldk r w).1
  serve_control (get_channel_fees r) w = (Control.get_channel_fees wallet.ldk r w).1
  serve_control (set_channel_fees r) w = (Control.set_channel_fees wallet.ldk r w).1
  serve_control (query_routes r) w = (Routes.query_routes wallet.ldk r w).1
  serve_control (get_forwarding_history r) w = (Control.get_forwarding_history wallet.ldk r w).1
  serve_control (list_network_nodes limit offset) w =
      (Network.list_network_nodes wallet.ldk limit offset w).1
  serve_control (get_network_node r) w = (Network.get_network_node wallet.ldk r w).1
  serve_control (get_network_channel r) w = (Network.get_network_channel wallet.ldk r w).1

  -- The notifier, and the queue of the node: the next event, and the call that takes it off, a
  -- failure of which is only logged.
  module _ {N : Type 0} (notifier : Notifier S N) (next_event : S → Event × S)
      (event_handled : S → Outcome Text (Unit {0}) × S) where
    -- One round of the loop in `run`: the event is marked as handled after its notice went out.
    unfoldable pub pump : World S → World S
    pump w =
        let (event, s) = next_event w.node in
        let (notice, w1) = handle wallet.ldk event (record w { node = s }) in
        let w2 = deliver notifier notice w1 in record w2 { node = (event_handled w2.node).1 }

    pub serve : Turn → World S → World S
    serve (wallet_turn r) w = serve_wallet r w
    serve (control_turn r) w = serve_control r w
    serve pump_turn w = pump w

    pub serve_all : List Turn → World S → World S
    serve_all [] w = w
    serve_all (t ∷ ts) w = serve_all ts (serve t w)
