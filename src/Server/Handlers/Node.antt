-- ===== src/Server/Handlers/Node.antt =====
-- The effect of the handlers of src/control.rs on the tables.
use dln_node_knots.Prelude.{ℕ, Option, refl}
use dln_node_knots.Text.{Text}
use dln_node_knots.Ldk.{LdkService}
use dln_node_knots.Wallet.{}
use dln_node_knots.Control
use dln_node_knots.Control.Network
use dln_node_knots.Control.Routes
use dln_node_knots.Server.Methods.{method_rules}
use dln_node_knots.Server.Runs.{Runs, Reaches-same}

module _ {S : Type 0} (ldk : LdkService S) where
  pub list_channels-Runs : Runs (Control.list_channels ldk)
  unfolding Control.list_channels
  list_channels-Runs = search method_rules depth 8

  pub list_peers-Runs : Runs (Control.list_peers ldk)
  unfolding Control.list_peers
  list_peers-Runs = search method_rules depth 8

  pub open_channel-Runs : (r : Control.OpenChannelRequest) → Runs (Control.open_channel ldk r)
  unfolding Control.open_channel
  open_channel-Runs r = search method_rules depth 8

  pub close_channel-Runs : (r : Control.CloseChannelRequest) → Runs (Control.close_channel ldk r)
  unfolding Control.close_channel
  close_channel-Runs r = search method_rules depth 8

  pub connect_peer-Runs : (r : Control.ConnectPeerRequest) → Runs (Control.connect_peer ldk r)
  unfolding Control.connect_peer
  connect_peer-Runs r = search method_rules depth 8

  pub disconnect_peer-Runs : (r : Text) → Runs (Control.disconnect_peer ldk r)
  unfolding Control.disconnect_peer
  disconnect_peer-Runs r = search method_rules depth 8

  pub get_channel_fees-Runs : (r : Option Text) → Runs (Control.get_channel_fees ldk r)
  unfolding Control.get_channel_fees
  get_channel_fees-Runs r = search method_rules depth 8

  pub set_channel_fees-Runs :
      (r : Control.SetChannelFeesRequest) → Runs (Control.set_channel_fees ldk r)
  unfolding Control.set_channel_fees
  set_channel_fees-Runs r = search method_rules depth 8

  pub get_forwarding_history-Runs :
      (r : Control.GetForwardingHistoryRequest) → Runs (Control.get_forwarding_history ldk r)
  unfolding Control.get_forwarding_history
  get_forwarding_history-Runs r = record { at = λ w. Reaches-same w w refl }

  pub list_network_nodes-Runs :
      (limit : Option ℕ) (offset : Option ℕ) → Runs (Network.list_network_nodes ldk limit offset)
  unfolding Network.list_network_nodes
  list_network_nodes-Runs limit offset = search method_rules depth 8

  pub get_network_node-Runs : (r : Text) → Runs (Network.get_network_node ldk r)
  unfolding Network.get_network_node
  get_network_node-Runs r = search method_rules depth 8

  pub get_network_stats-Runs : Runs (Network.get_network_stats ldk)
  unfolding Network.get_network_stats
  get_network_stats-Runs = search method_rules depth 8

  pub get_network_channel-Runs : (r : Text) → Runs (Network.get_network_channel ldk r)
  unfolding Network.get_network_channel
  get_network_channel-Runs r = search method_rules depth 8

  pub query_routes-Runs : (r : Routes.QueryRoutesRequest) → Runs (Routes.query_routes ldk r)
  unfolding Routes.query_routes
  query_routes-Runs r = search method_rules depth 8
