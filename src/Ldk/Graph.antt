-- ===== src/Ldk/Graph.antt =====
-- The gossip graph in src/lightning/ldk_service.rs: nodes, channels and statistics.
pub mod Stats
use dln_node_knots.Prelude.{
  ℕ, ◌+◌, ◌-◌, ◌/◌, ◌^◌, ◌++◌, Bool, not, Option, none, some, List, [], ◌∷◌, map, map_option,
  and_then, length, ltb, if◌then◌else◌, unwrap_or, take, drop, u64_size, wrap64,
}
use dln_node_knots.Prelude.Outcome.{Outcome, ok_or, map_err}
use dln_node_knots.Prelude.Act.{Act, lift, pure, ◌>>=◌}
use dln_node_knots.Text.{Text, codes}
use dln_node_knots.Text.Number.{hex_byte}
use dln_node_knots.Scid.{format_scid, parse_scid}
use dln_node_knots.Node.{Library}
use dln_node_knots.Node.Types.{NodeId, Graph, GraphNode, GraphChannel, ChannelUpdate, Announcement}
use dln_node_knots.Ldk.{LdkService, World, call}
use dln_node_knots.Ldk.Errors.{LdkServiceError, invalid_pubkey, channel_failed}

pub record NetworkNodeInfo : Type 0 where
  pub pubkey : Text
  pub alias : Text
  pub color : Text
  pub num_channels : ℕ
  pub total_capacity : ℕ
  pub addresses : List Text
  pub last_update : ℕ

pub record NetworkChannelPolicy : Type 0 where
  pub base_fee : ℕ
  pub fee_rate : ℕ
  pub min_htlc : ℕ
  pub max_htlc : ℕ
  pub time_lock_delta : ℕ
  pub disabled : Bool
  pub last_update : ℕ

pub record NetworkChannelInfo : Type 0 where
  pub short_channel_id : Text
  pub capacity : Option ℕ
  pub node1_pubkey : Text
  pub node2_pubkey : Text
  pub node1_policy : Option NetworkChannelPolicy
  pub node2_policy : Option NetworkChannelPolicy

pub record NetworkStats : Type 0 where
  pub num_nodes : ℕ
  pub num_channels : ℕ
  pub total_capacity : ℕ
  pub avg_channel_size : ℕ
  pub max_channel_size : ℕ

-- The channels that the graph finds, of those named.
unfoldable pub found_channels : Graph → List ℕ → List GraphChannel
found_channels graph [] = []
found_channels graph (scid ∷ scids) =
    let rest = found_channels graph scids in
    elim (graph.channel scid) [ none ↦ rest | some ch ↦ ch ∷ rest ]

abbrev pub capacity_of : GraphChannel → ℕ
capacity_of ch = unwrap_or ch.capacity_sats 0

-- `.sum()`, which wraps around
unfoldable pub sum_capacity : ℕ → List GraphChannel → ℕ
sum_capacity acc [] = acc
sum_capacity acc (ch ∷ chs) = sum_capacity (wrap64 (acc + capacity_of ch)) chs

unfoldable pub color_of : Announcement → Text
color_of ann = codes "#" ++ (hex_byte ann.red ++ (hex_byte ann.green ++ hex_byte ann.blue))

abbrev node_info :
    Library → NodeId → Text → Text → List Text → ℕ → GraphNode → Graph → NetworkNodeInfo
node_info lib node_id alias color addresses last_update info graph = record {
  pubkey = lib.show_node_id node_id;
  alias = alias;
  color = color;
  num_channels = length info.channels;
  total_capacity = sum_capacity 0 (found_channels graph info.channels);
  addresses = addresses;
  last_update = last_update;
}

unfoldable pub map_node_info : Library → NodeId → GraphNode → Graph → NetworkNodeInfo
map_node_info lib node_id info graph = elim info.announcement_info [
  | some ann ↦
      node_info lib node_id ann.alias (color_of ann) ann.addresses ann.last_update info graph
  | none ↦ node_info lib node_id [] (codes "#000000") [] 0 info graph
]

-- `filter_map(|node_id| …)`
unfoldable pub known_nodes : Library → Graph → List NodeId → List NetworkNodeInfo
known_nodes lib graph [] = []
known_nodes lib graph (node_id ∷ ids) =
    let rest = known_nodes lib graph ids in
    elim (graph.node node_id) [
      | none ↦ rest
      | some info ↦ map_node_info lib node_id info graph ∷ rest
    ]

abbrev pub to_network_policy : ChannelUpdate → NetworkChannelPolicy
to_network_policy p = record {
  base_fee = p.base_msat;
  fee_rate = p.proportional_millionths;
  min_htlc = p.htlc_minimum_msat;
  max_htlc = p.htlc_maximum_msat;
  time_lock_delta = p.cltv_expiry_delta;
  disabled = not p.enabled;
  last_update = p.last_update;
}

unfoldable pub channel_entry : Library → ℕ → GraphChannel → NetworkChannelInfo
channel_entry lib scid ch = record {
  short_channel_id = format_scid scid;
  capacity = ch.capacity_sats;
  node1_pubkey = lib.show_node_id ch.node_one;
  node2_pubkey = lib.show_node_id ch.node_two;
  node1_policy = map_option to_network_policy ch.one_to_two;
  node2_policy = map_option to_network_policy ch.two_to_one;
}

-- `saturating_add`
abbrev pub saturating_add : ℕ → ℕ → ℕ
saturating_add a b = if ltb (a + b) u64_size then a + b else 2 ^ 64 - 1

-- The loop of `get_network_stats`: the total, then the largest.
unfoldable pub tally : ℕ → ℕ → List GraphChannel → ℕ × ℕ
tally total largest [] = (total, largest)
tally total largest (ch ∷ chs) =
    let cap = capacity_of ch in
    tally (saturating_add total cap) (if ltb largest cap then cap else largest) chs

unfoldable pub network_stats : Graph → NetworkStats
network_stats graph =
    let num_channels = length graph.list_channels in
    let (total, largest) = tally 0 0 (found_channels graph graph.list_channels) in
    record {
      num_nodes = length graph.list_nodes;
      num_channels = num_channels;
      total_capacity = total;
      avg_channel_size = if ltb 0 num_channels then total / num_channels else 0;
      max_channel_size = largest;
    }

module _ {S E : Type 0} (ldk : LdkService S) where
  unfoldable pub list_network_nodes : ℕ → ℕ → Act (World S) E (List NetworkNodeInfo)
  list_network_nodes limit offset = do
    graph ← call ldk.node.network_graph
    pure (known_nodes ldk.lib graph (take limit (drop offset graph.list_nodes)))

  unfoldable pub get_network_stats : Act (World S) E NetworkStats
  get_network_stats = do graph ← call ldk.node.network_graph; pure (network_stats graph)

module _ {S : Type 0} (ldk : LdkService S) where
  unfoldable pub get_network_node : Text → Act (World S) LdkServiceError (Option NetworkNodeInfo)
  get_network_node pubkey = do
    pk ← lift (map_err invalid_pubkey (ldk.lib.parse_public_key pubkey))
    graph ← call ldk.node.network_graph
    pure (
        map_option (λ (info : GraphNode). map_node_info ldk.lib (ldk.lib.node_id_of pk) info graph)
          (graph.node (ldk.lib.node_id_of pk)))

  unfoldable pub get_network_channel :
      Text → Act (World S) LdkServiceError (Option NetworkChannelInfo)
  get_network_channel scid_str = do
    scid ←
        lift
          (ok_or (parse_scid scid_str) (channel_failed (codes "invalid scid format: " ++ scid_str)))
    graph ← call ldk.node.network_graph
    pure (map_option (channel_entry ldk.lib scid) (graph.channel scid))
