-- ===== src/Control/Network.antt =====
-- The methods of src/control.rs that read the gossip graph.
use dln_node_knots.Prelude.{ℕ, Bool, Option, some, List, map, map_option, unwrap_or}
use dln_node_knots.Prelude.Outcome.{ok_or}
use dln_node_knots.Prelude.Act.{Act, pure, lift, ◌>>=◌}
use dln_node_knots.Text.{Text, codes}
use dln_node_knots.Ldk.{LdkService, World}
use dln_node_knots.Ldk.Graph.{
  NetworkNodeInfo, NetworkChannelPolicy, NetworkChannelInfo, NetworkStats,
}
use dln_node_knots.Ldk.Graph
use dln_node_knots.Nnc.{NncError, nnc_error, or_ldk_err, not_found, internal}

pub record ChannelPolicy : Type 0 where
  pub base_fee : Option ℕ
  pub fee_rate : Option ℕ
  pub min_htlc : Option ℕ
  pub max_htlc : Option ℕ
  pub time_lock_delta : Option ℕ
  pub disabled : Bool
  pub last_update : Option ℕ

pub record NetworkNode : Type 0 where
  pub pubkey : Text
  pub alias : Option Text
  pub color : Option Text
  pub num_channels : Option ℕ
  pub total_capacity : Option ℕ
  pub addresses : Option (List Text)
  pub last_update : Option ℕ

pub record GetNetworkStatsResponse : Type 0 where
  pub num_nodes : ℕ
  pub num_channels : ℕ
  pub total_capacity : ℕ
  pub avg_channel_size : Option ℕ
  pub max_channel_size : Option ℕ

pub record GetNetworkChannelResponse : Type 0 where
  pub short_channel_id : Text
  pub capacity : Option ℕ
  pub node1_pubkey : Text
  pub node2_pubkey : Text
  pub node1_policy : Option ChannelPolicy
  pub node2_policy : Option ChannelPolicy

unfoldable pub to_policy : NetworkChannelPolicy → ChannelPolicy
to_policy p = record {
  base_fee = some p.base_fee;
  fee_rate = some p.fee_rate;
  min_htlc = some p.min_htlc;
  max_htlc = some p.max_htlc;
  time_lock_delta = some p.time_lock_delta;
  disabled = p.disabled;
  last_update = some p.last_update;
}

unfoldable pub to_network_node : NetworkNodeInfo → NetworkNode
to_network_node n = record {
  pubkey = n.pubkey;
  alias = some n.alias;
  color = some n.color;
  num_channels = some n.num_channels;
  total_capacity = some n.total_capacity;
  addresses = some n.addresses;
  last_update = some n.last_update;
}

module _ {S : Type 0} (ldk : LdkService S) where
  unfoldable pub list_network_nodes :
      Option ℕ → Option ℕ → Act (World S) NncError (List NetworkNode)
  list_network_nodes limit offset = do
    nodes ← Graph.list_network_nodes ldk (unwrap_or limit 100) (unwrap_or offset 0)
    pure (map to_network_node nodes)

  unfoldable pub get_network_node : Text → Act (World S) NncError NetworkNode
  get_network_node pubkey = do
    asked ← or_ldk_err (codes "get_network_node") internal (Graph.get_network_node ldk pubkey)
    found ← lift (ok_or asked (nnc_error not_found (codes "no such node in the graph")))
    pure (to_network_node found)

  unfoldable pub get_network_stats : Act (World S) NncError GetNetworkStatsResponse
  get_network_stats = do
    s ← Graph.get_network_stats ldk
    pure (record {
      num_nodes = s.num_nodes;
      num_channels = s.num_channels;
      total_capacity = s.total_capacity;
      avg_channel_size = some s.avg_channel_size;
      max_channel_size = some s.max_channel_size;
    })

  unfoldable pub get_network_channel : Text → Act (World S) NncError GetNetworkChannelResponse
  get_network_channel short_channel_id = do
    asked ←
        or_ldk_err (codes "get_network_channel") internal
          (Graph.get_network_channel ldk short_channel_id)
    ch ← lift (ok_or asked (nnc_error not_found (codes "no such channel in the graph")))
    pure (record {
      short_channel_id = ch.short_channel_id;
      capacity = ch.capacity;
      node1_pubkey = ch.node1_pubkey;
      node2_pubkey = ch.node2_pubkey;
      node1_policy = map_option to_policy ch.node1_policy;
      node2_policy = map_option to_policy ch.node2_policy;
    })
