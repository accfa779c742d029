-- ===== src/Examples/Cheapest.antt =====
-- The cheapest route of the search, on a graph of three nodes.
use dln_node_knots.Prelude.{
  ℕ, true, some, ◌≤◌, ◌<◌, List, [], ◌∷◌, ◌≡◌, refl, arith, inl, inr, length, if◌then◌else◌, ap,
}
use dln_node_knots.Prelude.Outcome.{ok}
use dln_node_knots.Text.{codes, text_eq}
use dln_node_knots.Node.Types.{NodeId, Invoice}
use dln_node_knots.Nnc.{NncError}
use dln_node_knots.Ldk.Routes.{FoundRoute, find_routes}
use dln_node_knots.Ldk.Routes.Queue.{Edge, PathHop}
use dln_node_knots.Ldk.Routes.Edges.{IsEdge}
use dln_node_knots.Ldk.Routes.Walks.{IsWalk, priced}
use dln_node_knots.Ldk.Routes.Answers.{IsAnswer}
use dln_node_knots.Ldk.Routes.Cheapest.{IsWithinLimit}
use dln_node_knots.Ldk.Routes.Cheapest.Found.{find_routes-IsCheapest}
use dln_node_knots.Wallet.Quote.{QuotePaymentResponse, quote_payment}
use dln_node_knots.Wallet.Quote.Found.{quote_payment-IsCheapest}
use dln_node_knots.Examples.Samples.{routing_service, routing_wallet, routed_graph, world}
use dln_node_knots.Examples.Routes.{routed_graph-Fits, quote_request}

-- Every channel of the graph leads to a node of a lower rank.
rank : NodeId → ℕ
rank n = if text_eq n (1 ∷ []) then 2 else if text_eq n (7 ∷ []) then 1 else 0

rank-lt :
    (node : NodeId) (edge : Edge)
    → IsEdge 1000 routed_graph routed_graph.list_channels node edge
    → rank edge.next < rank node
unfolding rank text_eq
rank-lt node edge (inl (inl h)) = grind (arith, h)
rank-lt node edge (inl (inr h)) = absurd h
rank-lt node edge (inr (inl (inl h))) = grind (arith, h)
rank-lt node edge (inr (inl (inr h))) = absurd h
rank-lt node edge (inr (inr (inl (inl h)))) = grind (arith, h)
rank-lt node edge (inr (inr (inl (inr h)))) = absurd h
rank-lt node edge (inr (inr (inr h))) = absurd h

length-le-rank :
    (node : NodeId) (path : List PathHop) (to : NodeId)
    → IsWalk 1000 routed_graph node path to
    → length path ≤ rank node
length-le-rank node [] to walk = omega arith
length-le-rank node (h ∷ path) to ((edge, is_edge, same), walk) = omega (
  arith,
  rank-lt node edge is_edge,
  ap (λ (g : PathHop). rank g.node) same,
  length-le-rank h.node path to walk,
)

routed_graph-IsWithinLimit : IsWithinLimit 1000 routed_graph (1 ∷ [])
unfolding rank text_eq
routed_graph-IsWithinLimit path to walk simple = omega (arith, length-le-rank (1 ∷ []) path to walk)

-- By way of 7.
abbrev edge_to : ℕ → ℕ → Edge
edge_to next scid = record { next = next ∷ []; scid = scid; base = 1000; prop = 100; cltv = 40 }

abbrev two_hops : List PathHop
two_hops = priced 1000 (edge_to 7 1) ∷ priced 1000 (edge_to 3 2) ∷ []

two_hops-IsWalk : IsWalk 1000 routed_graph (1 ∷ []) two_hops (3 ∷ [])
two_hops-IsWalk = (
  (edge_to 7 1, inl (inl (refl, omega arith, omega arith, refl)), refl),
  ((edge_to 3 2, inr (inl (inl (refl, omega arith, omega arith, refl))), refl), refl),
)

-- The invoice that the sample reads for 1000 msat.
abbrev quoted_invoice : Invoice
quoted_invoice = record {
  payment_hash = [];
  amount_milli_satoshis = some 1000;
  payee = 3 ∷ [];
  encoded = codes "lnbcrt1";
}

find_routes-IsCheapest_example :
    (r : FoundRoute) × (rs : List FoundRoute) × ((find_routes {E = NncError} routing_service
        (3 ∷ [])
        1000
        2
        world).0
      ≡ ok (r ∷ rs))
    × IsAnswer 1000 routed_graph (1 ∷ []) (3 ∷ []) r
    × (r.total_fee ≤ 2000)
find_routes-IsCheapest_example =
    find_routes-IsCheapest routing_service (3 ∷ []) 1000 2 world (3 ∷ []) two_hops refl
      routed_graph-Fits routed_graph-IsWithinLimit two_hops-IsWalk (ground arith) (omega arith)

quote_payment-IsCheapest_example :
    (q : QuotePaymentResponse) × ((quote_payment routing_wallet quote_request world).0 ≡ ok q)
    × (q.route_found ≡ true)
    × (q.amount ≡ 1000)
    × (q.fee_msat ≤ 2000)
unfolding codes
quote_payment-IsCheapest_example =
    quote_payment-IsCheapest routing_wallet quote_request world quoted_invoice 1000 two_hops
      (λ k. refl) routed_graph-Fits routed_graph-IsWithinLimit refl refl two_hops-IsWalk
      (ground arith)
