-- ===== src/Examples/Routes.antt =====
-- The theorems on the search for routes, on a graph of three nodes.
use dln_node_knots.Prelude.{
  ℕ, zero, suc, ◌≤◌, true, none, some, List, [], ◌∷◌, ◌≡◌, refl, arith, inl, inr, All, length,
}
use dln_node_knots.Prelude.Outcome.{ok}
use dln_node_knots.Text.{codes, text_eq}
use dln_node_knots.TextMap.{get, update, or_insert}
use dln_node_knots.Node.Types.{PublicKey}
use dln_node_knots.Ldk.Routes.{
  RouteHop, FoundRoute, find_routes, hop_fee, search_graph, search, explore, push_edges, contains,
  edges_of, adjacency, add_channels, add_channel, add_direction, push_edge, edge_count, extend,
  carries, route_of, sum_expiry,
}
use dln_node_knots.Ldk.Routes.Queue.{Edge, push, compare_entries, compare_bytes}
use dln_node_knots.Ldk.Routes.Walks.{priced}
use dln_node_knots.Ldk.Routes.Totals.{Fits}
use dln_node_knots.Ldk.Routes.Answers.{
  IsAnswer, find_routes-ends, find_routes-IsAnswer, find_routes-IsCheapestFirst,
}
use dln_node_knots.Ldk.Routes.Order.{IsCheapestFirst}
use dln_node_knots.Ldk.Routes.Edges.{IsEdge}
use dln_node_knots.Hex.{hex_string}
use dln_node_knots.Scid.{format_scid}
use dln_node_knots.Nnc.{NncError}
use dln_node_knots.Control.Routes.{QueryRoutesRequest, Route, query_routes}
use dln_node_knots.Control.Routes.Reached.{query_routes_direct}
use dln_node_knots.Wallet.Quote.{QuotePaymentRequest, QuotePaymentResponse, quote_payment}
use dln_node_knots.Wallet.Quote.Found.{IsPriced, quote_payment-IsPriced}
use dln_node_knots.Examples.Samples.{routing_service, routing_wallet, routed_graph, world}

pub routed_graph-Fits : Fits routed_graph
routed_graph-Fits zero = tt
routed_graph-Fits (suc zero) = ((omega arith, omega arith), tt)
routed_graph-Fits (suc (suc zero)) = ((omega arith, omega arith), tt)
routed_graph-Fits (suc (suc (suc zero))) = ((omega arith, omega arith), tt)
routed_graph-Fits (suc (suc (suc (suc n)))) = tt

find_routes-ends_example :
    (routes : List FoundRoute) × ((find_routes {E = NncError} routing_service
        (3 ∷ [])
        1000
        2
        world).0
      ≡ ok routes)
    × (length routes ≤ 2)
find_routes-ends_example = find_routes-ends routing_service (3 ∷ []) 1000 2 world

abbrev hop : ℕ → ℕ → ℕ → RouteHop
hop node scid fee = record {
  pubkey = hex_string (node ∷ []);
  short_channel_id = format_scid scid;
  fee = fee;
  expiry = 40;
}

abbrev two_routes : List FoundRoute
two_routes =
    (record { total_fee = 2000; total_time_lock = 80; hops = hop 7 1 1000 ∷ hop 3 2 1000 ∷ [] })
    ∷ (record { total_fee = 5000; total_time_lock = 40; hops = hop 3 3 5000 ∷ [] })
    ∷ []

routes_found : (find_routes {E = NncError} routing_service (3 ∷ []) 1000 2 world).0 ≡ ok two_routes
unfolding find_routes search_graph search explore push push_edges contains edges_of adjacency
    add_channels add_channel add_direction push_edge get update or_insert text_eq edge_count extend
    hop_fee compare_entries compare_bytes carries route_of sum_expiry
routes_found = refl

find_routes-IsAnswer_example :
    All
      (λ (r : FoundRoute).
        (pk : PublicKey) × (routing_service.lib.parse_public_key (3 ∷ []) ≡ ok pk)
        × IsAnswer 1000 routed_graph (1 ∷ []) (routing_service.lib.node_id_of pk) r)
      two_routes
find_routes-IsAnswer_example =
    find_routes-IsAnswer routing_service (3 ∷ []) 1000 2 world routed_graph-Fits two_routes
      routes_found

find_routes-IsCheapestFirst_example : IsCheapestFirst two_routes
find_routes-IsCheapestFirst_example =
    find_routes-IsCheapestFirst routing_service (3 ∷ []) 1000 2 world routed_graph-Fits two_routes
      routes_found

-- The edge from 1 to 3.
abbrev direct_edge : Edge
direct_edge = record { next = 3 ∷ []; scid = 3; base = 5000; prop = 100; cltv = 40 }

-- No number of routes is asked for.
abbrev query : QueryRoutesRequest
query = record { destination = 3 ∷ []; amount = 1000; max_routes = some 0 }

direct_edge-IsEdge : IsEdge 1000 routed_graph routed_graph.list_channels (1 ∷ []) direct_edge
direct_edge-IsEdge = inr (inr (inl (inl (refl, omega arith, omega arith, refl))))

query_routes_direct_example :
    (route : Route) × (routes : List Route) × ((query_routes routing_service query world).0
      ≡ ok (route ∷ routes))
    × (route.total_fee ≤ (priced 1000 direct_edge).fee)
query_routes_direct_example =
    query_routes_direct routing_service query world (3 ∷ []) direct_edge refl routed_graph-Fits
      direct_edge-IsEdge refl (ground arith)

abbrev pub quote_request : QuotePaymentRequest
quote_request = record { invoice = codes "lnbcrt1"; amount = none }

abbrev quote : QuotePaymentResponse
quote = record { amount = 1000; fee_msat = 2000; cltv_expiry_delta = 80; route_found = true }

quote_payment-IsPriced_example : IsPriced routing_wallet quote_request world quote
unfolding quote_payment codes find_routes search_graph search explore push push_edges contains
    edges_of adjacency add_channels add_channel add_direction push_edge get update or_insert text_eq
    edge_count extend hop_fee compare_entries compare_bytes carries route_of sum_expiry
quote_payment-IsPriced_example =
    quote_payment-IsPriced routing_wallet quote_request world (λ k. refl) routed_graph-Fits quote
      refl refl
