-- ===== src/Ldk/Routes.antt =====
-- `find_routes` of src/lightning/ldk_service.rs: the search for routes over the gossip graph. A heap
-- of partial paths, cheapest first, is worked off until it is empty or enough routes are found.
pub mod Queue
pub mod Loop
pub mod Edges
pub mod Heap
pub mod Walks
pub mod Totals
pub mod Order
pub mod Direct
pub mod Simple
pub mod Trails
pub mod Cheapest
pub mod Answers
use dln_node_knots.Prelude.{
  ℕ, zero, suc, ◌+◌, ◌*◌, ◌/◌, ◌%◌, Bool, true, false, ◌&&◌, Option, none, some, List, [], ◌∷◌,
  ◌++◌, map, length, ltb, leb, if◌then◌else◌, unwrap_or, wrap64, u32_size,
}
use Queue.{Edge, PathHop, Entry, push}
use dln_node_knots.Prelude.Select.{any_by}
use dln_node_knots.Prelude.Outcome.{Outcome, ok, out_of_fuel, to_option}
use dln_node_knots.Prelude.Act.{Act, pure, lift, ◌>>=◌}
use dln_node_knots.Text.{Bytes, Text, text_eq}
use dln_node_knots.TextMap.{TextMap, get, or_insert, update}
use dln_node_knots.Hex.{hex_string}
use dln_node_knots.Scid.{format_scid}
use dln_node_knots.Node.Types.{NodeId, Graph, GraphChannel, ChannelUpdate}
use dln_node_knots.Ldk.{LdkService, World, call}

pub record RouteHop : Type 0 where
  pub pubkey : Text
  pub short_channel_id : Text
  pub fee : ℕ
  pub expiry : ℕ

pub record FoundRoute : Type 0 where
  pub total_fee : ℕ
  pub total_time_lock : ℕ
  pub hops : List RouteHop

abbrev pub Adjacency : Type 0
Adjacency = TextMap (List Edge)

-- `amount_msat >= upd.htlc_minimum_msat && amount_msat <= upd.htlc_maximum_msat`
unfoldable pub carries : ℕ → ChannelUpdate → Bool
carries amount upd = leb upd.htlc_minimum_msat amount && leb amount upd.htlc_maximum_msat

abbrev pub edge_of : NodeId → ℕ → ChannelUpdate → Edge
edge_of next scid upd = record {
  next = next;
  scid = scid;
  base = upd.base_msat;
  prop = upd.proportional_millionths;
  cltv = upd.cltv_expiry_delta;
}

-- `adj.entry(node).or_default().push(edge)`
unfoldable pub push_edge : NodeId → Edge → Adjacency → Adjacency
push_edge node edge adj = update node (λ edges. edges ++ edge ∷ []) (or_insert node [] adj)

unfoldable pub add_direction :
    ℕ → NodeId → NodeId → ℕ → Option ChannelUpdate → Adjacency → Adjacency
add_direction amount from next scid none adj = adj
add_direction amount from next scid (some upd) adj =
    if carries amount upd then push_edge from (edge_of next scid upd) adj else adj

unfoldable pub add_channel : ℕ → ℕ → Option GraphChannel → Adjacency → Adjacency
add_channel amount scid none adj = adj
add_channel amount scid (some ch) adj =
    add_direction amount ch.node_two ch.node_one scid ch.two_to_one
      (add_direction amount ch.node_one ch.node_two scid ch.one_to_two adj)

-- `for scid in &all_channels { … }`
unfoldable pub add_channels : ℕ → Graph → List ℕ → Adjacency → Adjacency
add_channels amount graph [] adj = adj
add_channels amount graph (scid ∷ scids) adj =
    add_channels amount graph scids (add_channel amount scid (graph.channel scid) adj)

unfoldable pub adjacency : ℕ → Graph → Adjacency
adjacency amount graph = add_channels amount graph graph.list_channels []

-- The edges that `adj.get(&node)` finds.
unfoldable pub edges_of : NodeId → Adjacency → List Edge
edges_of node adj = unwrap_or (get node adj) []

unfoldable pub contains : NodeId → List NodeId → Bool
contains node visited = any_by (λ v. text_eq v node) visited

unfoldable pub hop_fee : ℕ → Edge → ℕ
hop_fee amount edge = wrap64 (edge.base + wrap64 (amount * edge.prop) / 1_000_000)

-- The hop that is pushed on the path.
abbrev pub hop_over : ℕ → Edge → PathHop
hop_over amount edge = record {
  node = edge.next;
  scid = edge.scid;
  fee = hop_fee amount edge;
  cltv = edge.cltv;
}

unfoldable pub extend : ℕ → Entry → Edge → Entry
extend amount e edge = record {
  cost = wrap64 (e.cost + hop_fee amount edge);
  node = edge.next;
  path = e.path ++ hop_over amount edge ∷ [];
}

-- `for (next, …) in edges { … }`
unfoldable pub push_edges : ℕ → Entry → List NodeId → List Edge → List Entry → List Entry
push_edges amount e visited [] heap = heap
push_edges amount e visited (edge ∷ edges) heap =
    push_edges amount e visited edges
      (if contains edge.next visited then heap else push (extend amount e edge) heap)

abbrev pub hop_of : PathHop → RouteHop
hop_of h = record {
  pubkey = hex_string h.node;
  short_channel_id = format_scid h.scid;
  fee = h.fee;
  expiry = h.cltv;
}

-- `hops.iter().map(|h| h.expiry as u32).sum()`, which wraps around
unfoldable pub sum_expiry : ℕ → List RouteHop → ℕ
sum_expiry acc [] = acc
sum_expiry acc (h ∷ hops) = sum_expiry ((acc + h.expiry) % u32_size) hops

unfoldable pub route_of : Entry → FoundRoute
route_of e =
    let hops = map hop_of e.path in
    record { total_fee = e.cost; total_time_lock = sum_expiry 0 hops; hops = hops }

pub record Search : Type 0 where
  pub heap : List Entry
  pub visited : List NodeId
  pub found : List FoundRoute

module _ (adj : Adjacency) (dest : NodeId) (amount max_routes : ℕ) where
  -- The body of the loop, for the entry that was popped.
  unfoldable pub explore : Entry → Search → Search
  explore e s =
      if ltb 6 (length e.path)
      then s
      else if text_eq e.node dest
      then record s { found = s.found ++ route_of e ∷ [] }
      else if contains e.node s.visited
      then s
      else (record {
        heap = push_edges amount e (e.node ∷ s.visited) (edges_of e.node adj) s.heap;
        visited = e.node ∷ s.visited;
        found = s.found;
      })

  -- The loop, with the number of rounds that it may take.
  unfoldable pub search : {E : Type 0} → ℕ → Search → Outcome E (List FoundRoute)
  search zero s = out_of_fuel
  search (suc rounds) s = elim s.heap [
    | [] ↦ ok s.found
    | e ∷ heap ↦ elim (leb max_routes (length s.found)) [
      | true ↦ ok s.found
      | false ↦ search rounds (explore e (record s { heap = heap }))
    ]
  ]

-- The model allows a round for each edge, and two more.
unfoldable pub edge_count : Adjacency → ℕ
edge_count [] = 0
edge_count ((node, edges) ∷ adj) = length edges + edge_count adj

abbrev pub start : NodeId → Search
start our_node = record {
  heap = (record { cost = 0; node = our_node; path = [] }) ∷ [];
  visited = [];
  found = [];
}

unfoldable pub search_graph :
    {E : Type 0} → Graph → NodeId → NodeId → ℕ → ℕ → Outcome E (List FoundRoute)
search_graph graph our_node dest amount max_routes =
    let adj = adjacency amount graph in
    search adj dest amount max_routes (suc (suc (edge_count adj))) (start our_node)

module _ {S E : Type 0} (ldk : LdkService S) where
  routes_to : NodeId → ℕ → ℕ → Act (World S) E (List FoundRoute)
  routes_to dest amount max_routes = do
    our_pk ← call ldk.node.our_node_id
    if text_eq (ldk.lib.node_id_of our_pk) dest then pure [] else do
      graph ← call ldk.node.network_graph
      lift (search_graph graph (ldk.lib.node_id_of our_pk) dest amount max_routes)

  unfoldable pub find_routes : Text → ℕ → ℕ → Act (World S) E (List FoundRoute)
  unfolding routes_to
  find_routes dest_pubkey amount max_routes =
      elim (to_option (ldk.lib.parse_public_key dest_pubkey)) [
        | none ↦ pure []
        | some dest_pk ↦ routes_to (ldk.lib.node_id_of dest_pk) amount max_routes
      ]
