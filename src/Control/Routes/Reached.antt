-- ===== src/Control/Routes/Reached.antt =====
-- When query_routes (src/control.rs) answers a route.
use dln_node_knots.Prelude.{ℕ, ◌≤◌, List, ◌∷◌, ◌≡◌, ◌≢◌, arith, map, max, unwrap_or}
use dln_node_knots.Prelude.Outcome.{ok}
use dln_node_knots.Node.Types.{PublicKey}
use dln_node_knots.Ldk.{LdkService, World}
use dln_node_knots.Ldk.Routes.Queue.{Edge}
use dln_node_knots.Ldk.Routes.Edges.{IsEdge}
use dln_node_knots.Ldk.Routes.Walks.{priced}
use dln_node_knots.Ldk.Routes.Totals.{Fits}
use dln_node_knots.Ldk.Routes.Answers.{own_node, read_graph, find_routes_direct}
use dln_node_knots.Nnc.{NncError}
use dln_node_knots.Control.Routes.{QueryRoutesRequest, Route, to_route, query_routes}

-- The number of routes that a request asks for.
abbrev pub asked : QueryRoutesRequest → ℕ
asked r = max (unwrap_or r.max_routes 1) 1

module _ {S : Type 0} (ldk : LdkService S) (r : QueryRoutesRequest) (w : World S) where
  -- On a graph with u32 base fees and u16 time locks, where a channel carries the amount from this
  -- node to the node asked for: the request is answered with a route, whatever number of routes it
  -- asks for, and the first route costs no more than the fee of that channel.
  pub query_routes_direct :
      (pk : PublicKey) (edge : Edge)
      → ldk.lib.parse_public_key r.destination ≡ ok pk
      → Fits (read_graph ldk w)
      → IsEdge r.amount (read_graph ldk w) (read_graph ldk w).list_channels (own_node ldk w) edge
      → edge.next ≡ ldk.lib.node_id_of pk
      → own_node ldk w ≢ ldk.lib.node_id_of pk
      → (route : Route) × (routes : List Route) × ((query_routes ldk r w).0 ≡ ok (route ∷ routes))
        × (route.total_fee ≤ (priced r.amount edge).fee)
  unfolding query_routes
  query_routes_direct pk edge parsed fits is_edge at elsewhere =
      let (first, rest, is, fee) =
        find_routes_direct {E = NncError} ldk r.destination r.amount (asked r) w pk edge parsed fits
          is_edge at elsewhere (omega arith) in
      (to_route first, map to_route rest, ground (arith, is), fee)
