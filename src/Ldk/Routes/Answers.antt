-- ===== src/Ldk/Routes/Answers.antt =====
-- What find_routes (src/lightning/ldk_service.rs) answers.
use dln_node_knots.Prelude.{
  ℕ, suc, ◌≤◌, ◌<◌, List, [], ◌∷◌, ◌≡◌, ◌≢◌, sym, subst, ◌∙◌, ◌⊎◌, inl, inr, arith, length,
  length-append, map, Bool-cases, All, All-imp, Option-cases,
}
use dln_node_knots.Prelude.Outcome.{ok, to_option, to_option_ok, ok_unique}
use dln_node_knots.Text.{Text, text_eq}
use dln_node_knots.Text.Equality.{text_eq_iff}
use dln_node_knots.Node.Types.{NodeId, PublicKey, Graph}
use dln_node_knots.Ldk.{LdkService, World}
use dln_node_knots.Ldk.Routes.{
  Search, FoundRoute, hop_of, hop_fee, adjacency, edge_count, start, route_of, search_graph,
  find_routes,
}
use dln_node_knots.Ldk.Routes.Queue.{Edge, PathHop}
use dln_node_knots.Ldk.Routes.Edges.{IsEdge}
use dln_node_knots.Ldk.Routes.Loop.{explore-rule, search-rule, search_graph-ends}
use dln_node_knots.Ldk.Routes.Walks.{
  priced, IsRoute, IsWalk, sum_fees, sum_cltv, search_graph-IsRoute,
}
use dln_node_knots.Ldk.Routes.Totals.{Fits, IsWalk-totals}
use dln_node_knots.Ldk.Routes.Order.{IsCheapestFirst, search_graph-IsCheapestFirst}
use dln_node_knots.Ldk.Routes.Direct.{search_graph_direct}

search_graph-length :
    {E : Type 0} (graph : Graph) (our_node dest : NodeId) (amount max_routes : ℕ)
    (routes : List FoundRoute)
    → search_graph {E = E} graph our_node dest amount max_routes ≡ ok routes
    → length routes ≤ max_routes
unfolding search_graph
search_graph-length graph our_node dest amount max_routes routes h =
    let adj = adjacency amount graph in
    let P = λ (s : Search). length s.found ≤ max_routes in
    let (s, few, is, stopped) =
      search-rule adj dest amount max_routes P
        (λ e s more k.
          explore-rule adj dest amount max_routes P e s k
            (λ short at. omega (arith, more, length-append s.found (route_of e ∷ [])))
            (λ short away new. k))
        (suc (suc (edge_count adj))) (start our_node).heap [] [] (omega arith) routes h in
    subst (λ (rs : List FoundRoute). length rs ≤ max_routes) is few

-- A route as the caller reads it: the hops of a walk over the graph, one to six of them, with the
-- exact sums of their fees and of their time locks.
pub record IsAnswer (amount : ℕ) (graph : Graph) (our_node dest : NodeId) (r : FoundRoute)
    : Type 0 where
  pub path : List PathHop
  pub walk : IsWalk amount graph our_node path dest
  pub at_least_one : 1 ≤ length path
  pub at_most_six : length path ≤ 6
  pub hops_of : r.hops ≡ map hop_of path
  pub fee_of : r.total_fee ≡ sum_fees path
  pub time_lock_of : r.total_time_lock ≡ sum_cltv path

IsRoute-IsAnswer :
    (amount : ℕ) (graph : Graph) (our_node dest : NodeId) (r : FoundRoute)
    → Fits graph
    → our_node ≢ dest
    → IsRoute amount graph our_node dest r
    → IsAnswer amount graph our_node dest r
IsRoute-IsAnswer amount graph our_node dest r fits elsewhere route =
    let totals = IsWalk-totals amount graph fits our_node route.path dest route.walk in
    record {
      path = route.path;
      walk = route.walk;
      at_least_one = some_hop route.path route.walk;
      at_most_six = route.short;
      hops_of = route.hops_of;
      fee_of = omega (arith, route.fee_of, route.short, totals.0);
      time_lock_of = omega (arith, route.time_lock_of, route.short, totals.1);
    }
  where
    some_hop : (path : List PathHop) → IsWalk amount graph our_node path dest → 1 ≤ length path
    some_hop [] walk = absurd (elsewhere walk)
    some_hop (h ∷ path) walk = omega arith

All-IsAnswer :
    (amount : ℕ) (graph : Graph) (our_node dest : NodeId) (rs : List FoundRoute)
    → Fits graph
    → our_node ≢ dest
    → All (IsRoute amount graph our_node dest) rs
    → All (IsAnswer amount graph our_node dest) rs
All-IsAnswer amount graph our_node dest [] fits elsewhere h = tt
All-IsAnswer amount graph our_node dest (r ∷ rs) fits elsewhere h = (
  IsRoute-IsAnswer amount graph our_node dest r fits elsewhere h.0,
  All-IsAnswer amount graph our_node dest rs fits elsewhere h.1,
)

module _ {S : Type 0} (ldk : LdkService S) (w : World S) where
  -- The node's own id, and the graph, as the call reads them.
  abbrev pub own_node : NodeId
  own_node = ldk.lib.node_id_of (ldk.node.our_node_id w.node).0

  abbrev pub read_graph : Graph
  read_graph = (ldk.node.network_graph (ldk.node.our_node_id w.node).1).0

module _ {S E : Type 0} (ldk : LdkService S) (dest_pubkey : Text) (amount max_routes : ℕ)
    (w : World S) where
  -- The call answers nothing, or what the search answers for the destination's key.
  find_routes-cases :
      ((find_routes {E = E} ldk dest_pubkey amount max_routes w).0 ≡ ok [])
      ⊎ ((pk : PublicKey) × (ldk.lib.parse_public_key dest_pubkey ≡ ok pk)
          × (own_node ldk w ≢ ldk.lib.node_id_of pk)
          × ((find_routes {E = E} ldk dest_pubkey amount max_routes w).0
              ≡ search_graph
                  (read_graph ldk w)
                  (own_node ldk w)
                  (ldk.lib.node_id_of pk)
                  amount
                  max_routes))
  unfolding find_routes
  find_routes-cases = elim (Option-cases (to_option (ldk.lib.parse_public_key dest_pubkey))) [
    | inl e ↦ inl (ground (arith, e))
    | inr (pk, e) ↦
        let dest = ldk.lib.node_id_of pk in
        elim (Bool-cases (text_eq (own_node ldk w) dest)) [
          | inl same ↦ inl (ground (arith, e, same))
          | inr other ↦
              let elsewhere = λ (same : own_node ldk w ≡ dest).
                absurd (ground (arith, other, (text_eq_iff (own_node ldk w) dest).1 same)) in
              inr (pk, to_option_ok _ pk e, elsewhere, ground (arith, e, other))
        ]
  ]

  -- The route search returns, whatever the graph: the rounds of the model are enough for every
  -- graph, and it returns no more routes than were asked for.
  pub find_routes-ends :
      (routes : List FoundRoute) × ((find_routes {E = E} ldk dest_pubkey amount max_routes w).0
        ≡ ok routes)
      × (length routes ≤ max_routes)
  find_routes-ends = elim find_routes-cases [
    | inl none_found ↦ ([], none_found, omega arith)
    | inr (pk, parsed, elsewhere, same) ↦
        let graph = read_graph ldk w in
        let us = own_node ldk w in
        let dest = ldk.lib.node_id_of pk in
        let (routes, is) = search_graph-ends {E = E} graph us dest amount max_routes in
        (routes, same ∙ is, search_graph-length graph us dest amount max_routes routes is)
  ]

  -- On a graph whose policies have u32 base fees and u16 time locks, every route that the search
  -- answers leads from this node to the node of the key asked for, over one to six channels of the
  -- graph that each carry the amount in that direction, and its two totals are the exact sums.
  pub find_routes-IsAnswer :
      Fits (read_graph ldk w)
      → (routes : List FoundRoute)
      → (find_routes {E = E} ldk dest_pubkey amount max_routes w).0 ≡ ok routes
      → All
          (λ (r : FoundRoute).
            (pk : PublicKey) × (ldk.lib.parse_public_key dest_pubkey ≡ ok pk)
            × IsAnswer amount (read_graph ldk w) (own_node ldk w) (ldk.lib.node_id_of pk) r)
          routes
  find_routes-IsAnswer fits routes h = elim find_routes-cases [
    | inl none_found ↦ subst (All _) (ok_unique none_found h) tt
    | inr (pk, parsed, elsewhere, same) ↦
        let graph = read_graph ldk w in
        let us = own_node ldk w in
        let dest = ldk.lib.node_id_of pk in
        All-imp (IsAnswer amount graph us dest) _ routes (λ r answer. (pk, parsed, answer))
          (All-IsAnswer amount graph us dest routes fits elsewhere
            (search_graph-IsRoute amount graph us dest max_routes routes (sym same ∙ h)))
  ]

  -- On such a graph the routes come cheapest first.
  pub find_routes-IsCheapestFirst :
      Fits (read_graph ldk w)
      → (routes : List FoundRoute)
      → (find_routes {E = E} ldk dest_pubkey amount max_routes w).0 ≡ ok routes
      → IsCheapestFirst routes
  find_routes-IsCheapestFirst fits routes h = elim find_routes-cases [
    | inl none_found ↦ subst IsCheapestFirst (ok_unique none_found h) tt
    | inr (pk, parsed, elsewhere, same) ↦
        search_graph-IsCheapestFirst amount (read_graph ldk w) (own_node ldk w)
          (ldk.lib.node_id_of pk) fits max_routes routes (sym same ∙ h)
  ]

  -- On such a graph, when at least one route is asked for and a channel of the graph carries the
  -- amount from this node to another one, the search for that one finds a route, and the first
  -- route costs no more than the fee of that channel.
  pub find_routes_direct :
      (pk : PublicKey) (edge : Edge)
      → ldk.lib.parse_public_key dest_pubkey ≡ ok pk
      → Fits (read_graph ldk w)
      → IsEdge amount (read_graph ldk w) (read_graph ldk w).list_channels (own_node ldk w) edge
      → edge.next ≡ ldk.lib.node_id_of pk
      → own_node ldk w ≢ ldk.lib.node_id_of pk
      → 0 < max_routes
      → (r : FoundRoute) × (rs : List FoundRoute) × ((find_routes {E = E} ldk dest_pubkey amount
            max_routes w).0
          ≡ ok (r ∷ rs))
        × (r.total_fee ≤ (priced amount edge).fee)
  unfolding find_routes hop_fee
  find_routes_direct pk edge parsed fits is_edge at elsewhere some_asked =
      let graph = read_graph ldk w in
      let us = own_node ldk w in
      let dest = ldk.lib.node_id_of pk in
      let (routes, is) = search_graph-ends {E = E} graph us dest amount max_routes in
      let (r, rs, first, fee) =
        search_graph_direct amount graph us dest fits edge is_edge at elsewhere max_routes routes
          some_asked is in
      (r, rs, ground (arith, parsed, text_eq_iff us dest, elsewhere, is, first), fee)
