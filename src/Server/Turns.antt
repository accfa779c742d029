-- ===== src/Server/Turns.antt =====
-- Sequences of turns of the node (src/service.rs): their effect on the tables.
pub mod Kept
use dln_node_knots.Prelude.{List, [], ◌∷◌, ◌≡◌, refl, ap, Bool-cases, inl, inr, if◌then◌else◌}
use dln_node_knots.Prelude.Outcome.{Outcome}
use dln_node_knots.Text.{Text}
use dln_node_knots.Ldk.{LdkService, World}
use dln_node_knots.Ldk.Channels.{notify_channel_ready}
use dln_node_knots.Wallet.{Wallet}
use dln_node_knots.Events.{
  Event, handle, forwarding_entry, payment_forwarded, payment_received, payment_successful,
  payment_claimable, channel_ready, channel_closed, another_event, handle_ready, payment_now,
}
use dln_node_knots.Server.{
  WalletRequest, ControlRequest, Turn, serve_wallet, serve_control, pump, serve, serve_all,
  wallet_turn, control_turn, pump_turn,
}
use dln_node_knots.Server
use dln_node_knots.Server.Runs.{
  Reaches, Reaches-same, Reaches-one, Reaches-trans, forward_call, apply, Runs, tables_of,
}
use dln_node_knots.Events.Delivery.{Notifier, deliver-node}
use dln_node_knots.Server.Handlers.Payments
use dln_node_knots.Server.Handlers.Tables
use dln_node_knots.Server.Handlers.Node

module _ {S : Type 0} (ldk : LdkService S) where
  handle-Reaches : (e : Event) (w : World S) → Reaches w (handle ldk e w).1
  unfolding handle handle_ready payment_now notify_channel_ready apply
  handle-Reaches (payment_received hash amount) w = Reaches-same w _ refl
  handle-Reaches (payment_successful hash fee) w = Reaches-same w _ refl
  handle-Reaches (payment_claimable hash amount deadline) w = Reaches-same w _ refl
  handle-Reaches (channel_ready id user peer) w = elim (Bool-cases ldk.has_keys_manager) [
    | inl signer ↦ rw signer (Reaches-same w _ refl)
    | inr no_signer ↦ rw no_signer (Reaches-same w _ refl)
  ]
  handle-Reaches (channel_closed id peer reason) w = Reaches-same w _ refl
  handle-Reaches (payment_forwarded prev next fee out) w =
      Reaches-one w _
        (forward_call (
          forwarding_entry (ldk.lib.show_channel_id prev) (ldk.lib.show_channel_id next) fee out
            (ldk.node.system_time w.node).0))
        refl
  handle-Reaches another_event w = Reaches-same w _ refl

module _ {S : Type 0} (wallet : Wallet S) where
  serve_wallet-Reaches : (r : WalletRequest) (w : World S) → Reaches w (serve_wallet wallet r w)
  unfolding serve_wallet
  serve_wallet-Reaches Server.get_info w = (Payments.get_info-Runs wallet).at w
  serve_wallet-Reaches Server.get_balance w = (Payments.get_balance-Runs wallet).at w
  serve_wallet-Reaches Server.list_addresses w = (Tables.list_addresses-Runs wallet).at w
  serve_wallet-Reaches (Server.pay_invoice r) w = (Payments.pay_invoice-Runs wallet r).at w
  serve_wallet-Reaches (Server.pay_keysend r) w = (Payments.pay_keysend-Runs wallet r).at w
  serve_wallet-Reaches (Server.make_invoice r) w = (Payments.make_invoice-Runs wallet r).at w
  serve_wallet-Reaches (Server.make_hold_invoice r) w =
      (Payments.make_hold_invoice-Runs wallet r).at w
  serve_wallet-Reaches (Server.settle_hold_invoice r) w =
      (Payments.settle_hold_invoice-Runs wallet r).at w
  serve_wallet-Reaches (Server.cancel_hold_invoice r) w =
      (Payments.cancel_hold_invoice-Runs wallet r).at w
  serve_wallet-Reaches (Server.lookup_invoice r) w = (Payments.lookup_invoice-Runs wallet r).at w
  serve_wallet-Reaches (Server.lookup_payment r) w = (Payments.lookup_payment-Runs wallet r).at w
  serve_wallet-Reaches (Server.list_transactions r) w =
      (Payments.list_transactions-Runs wallet r).at w
  serve_wallet-Reaches (Server.list_invoices r) w = (Payments.list_invoices-Runs wallet r).at w
  serve_wallet-Reaches (Server.pay r) w = (Payments.pay-Runs wallet r).at w
  serve_wallet-Reaches (Server.quote_payment r) w = (Payments.quote_payment-Runs wallet r).at w
  serve_wallet-Reaches (Server.pay_onchain r) w = (Tables.pay_onchain-Runs wallet r).at w
  serve_wallet-Reaches (Server.make_new_address r) w = (Tables.make_new_address-Runs wallet r).at w
  serve_wallet-Reaches (Server.lookup_address r) w = (Tables.lookup_address-Runs wallet r).at w
  serve_wallet-Reaches (Server.make_offer r) w = (Tables.make_offer-Runs wallet r).at w
  serve_wallet-Reaches (Server.pay_offer r) w = (Tables.pay_offer-Runs wallet r).at w
  serve_wallet-Reaches (Server.list_offers r) w = (Tables.list_offers-Runs wallet r).at w
  serve_wallet-Reaches (Server.disable_offer r) w = (Tables.disable_offer-Runs wallet r).at w
  serve_wallet-Reaches (Server.receive r) w = (Tables.receive-Runs wallet r).at w

  serve_control-Reaches : (r : ControlRequest) (w : World S) → Reaches w (serve_control wallet r w)
  unfolding serve_control
  serve_control-Reaches Server.list_channels w = (Node.list_channels-Runs wallet.ldk).at w
  serve_control-Reaches Server.list_peers w = (Node.list_peers-Runs wallet.ldk).at w
  serve_control-Reaches Server.get_network_stats w = (Node.get_network_stats-Runs wallet.ldk).at w
  serve_control-Reaches (Server.open_channel r) w = (Node.open_channel-Runs wallet.ldk r).at w
  serve_control-Reaches (Server.close_channel r) w = (Node.close_channel-Runs wallet.ldk r).at w
  serve_control-Reaches (Server.connect_peer r) w = (Node.connect_peer-Runs wallet.ldk r).at w
  serve_control-Reaches (Server.disconnect_peer r) w = (Node.disconnect_peer-Runs wallet.ldk r).at w
  serve_control-Reaches (Server.get_channel_fees r) w =
      (Node.get_channel_fees-Runs wallet.ldk r).at w
  serve_control-Reaches (Server.set_channel_fees r) w =
      (Node.set_channel_fees-Runs wallet.ldk r).at w
  serve_control-Reaches (Server.query_routes r) w = (Node.query_routes-Runs wallet.ldk r).at w
  serve_control-Reaches (Server.get_forwarding_history r) w =
      (Node.get_forwarding_history-Runs wallet.ldk r).at w
  serve_control-Reaches (Server.get_network_node r) w =
      (Node.get_network_node-Runs wallet.ldk r).at w
  serve_control-Reaches (Server.get_network_channel r) w =
      (Node.get_network_channel-Runs wallet.ldk r).at w
  serve_control-Reaches (Server.list_network_nodes limit offset) w =
      (Node.list_network_nodes-Runs wallet.ldk limit offset).at w

  module _ {N : Type 0} (notifier : Notifier S N) (next_event : S → Event × S)
      (event_handled : S → Outcome Text (Unit {0}) × S) where
    pump-Reaches : (w : World S) → Reaches w (pump wallet notifier next_event event_handled w)
    unfolding pump
    pump-Reaches w =
        let (event, s) = next_event w.node in
        let v = record w { node = s } in
        let (notice, u) = handle wallet.ldk event v in
        Reaches-trans w v _ (Reaches-same w v refl) (
          Reaches-trans v u _ (handle-Reaches wallet.ldk event v)
            (Reaches-same u _ (ap tables_of (deliver-node notifier notice u))))

    serve-Reaches :
        (t : Turn) (w : World S) → Reaches w (serve wallet notifier next_event event_handled t w)
    unfolding serve
    serve-Reaches (wallet_turn r) w = serve_wallet-Reaches r w
    serve-Reaches (control_turn r) w = serve_control-Reaches r w
    serve-Reaches pump_turn w = pump-Reaches w

    -- Whatever requests and events the node serves, and whatever their outcomes, the tables it has
    -- afterwards are what a sequence of four calls of the stores makes of those before: the insertion
    -- of an offer, the disabling of one, the registration of an address, the record of a forward.
    pub serve_all-Reaches :
        (turns : List Turn) (w : World S)
        → Reaches w (serve_all wallet notifier next_event event_handled turns w)
    unfolding serve_all
    serve_all-Reaches [] w = Reaches-same w w refl
    serve_all-Reaches (t ∷ turns) w =
        let v = serve wallet notifier next_event event_handled t w in
        Reaches-trans w v _ (serve-Reaches t w) (serve_all-Reaches turns v)
