-- ===== src/Ldk/Routes/Walks.antt =====
-- Walks over the gossip graph, and the paths of find_routes (src/lightning/ldk_service.rs).
use dln_node_knots.Prelude.{
  ℕ, ◌*◌, ◌/◌, ◌^◌, suc, ◌+◌, ◌%◌, ◌≤◌, List, [], ◌∷◌, ◌++◌, ◌≡◌, refl, sym, ap, subst, ◌∙◌, arith,
  length, map, All, wrap64, u32_size,
}
use dln_node_knots.Prelude.Select.{Has}
use dln_node_knots.Prelude.Outcome.{ok}
use dln_node_knots.Node.Types.{NodeId, Graph}
use dln_node_knots.Ldk.Routes.{
  hop_fee, Search, FoundRoute, hop_of, hop_over, extend, explore, edges_of, adjacency, search_graph,
  route_of, sum_expiry, edge_count, start,
}
use dln_node_knots.Ldk.Routes.Queue.{Edge, Entry, PathHop}
use dln_node_knots.Ldk.Routes.Edges.{IsEdge, Has-adjacency}
use dln_node_knots.Ldk.Routes.Heap.{push_edges-All}
use dln_node_knots.Ldk.Routes.Loop.{explore-rule, search-rule}

-- A hop over an edge, and its price: the base fee, and the part of the amount in millionths, where
-- the product and the sum are those of u64.
abbrev pub priced : ℕ → Edge → PathHop
priced amount edge = record {
  node = edge.next;
  scid = edge.scid;
  fee = (edge.base + amount * edge.prop % 2 ^ 64 / 1_000_000) % 2 ^ 64;
  cltv = edge.cltv;
}

-- The hops lead over edges of the graph from one node to the other.
abbrev pub IsWalk : ℕ → Graph → NodeId → List PathHop → NodeId → Type 0
IsWalk amount graph from [] to = from ≡ to
IsWalk amount graph from (h ∷ path) to =
    ((edge : Edge) × IsEdge amount graph graph.list_channels from edge × (h ≡ priced amount edge))
    × IsWalk amount graph h.node path to

abbrev pub sum_fees : List PathHop → ℕ
sum_fees [] = 0
sum_fees (h ∷ path) = h.fee + sum_fees path

abbrev pub sum_cltv : List PathHop → ℕ
sum_cltv [] = 0
sum_cltv (h ∷ path) = h.cltv + sum_cltv path

IsWalk-snoc :
    (amount : ℕ) (graph : Graph) (from : NodeId) (path : List PathHop) (via : NodeId) (edge : Edge)
    → IsWalk amount graph from path via
    → IsEdge amount graph graph.list_channels via edge
    → IsWalk amount graph from (path ++ hop_over amount edge ∷ []) edge.next
unfolding hop_fee
IsWalk-snoc amount graph from [] via edge walk step = (
  (edge, subst (λ n. IsEdge amount graph graph.list_channels n edge) (sym walk) step, refl),
  refl,
)
IsWalk-snoc amount graph from (h ∷ path) via edge walk step =
    (walk.0, IsWalk-snoc amount graph h.node path via edge walk.1 step)

sum_fees-snoc :
    (path : List PathHop) (h : PathHop) → sum_fees (path ++ h ∷ []) ≡ sum_fees path + h.fee
sum_fees-snoc [] h = omega arith
sum_fees-snoc (g ∷ path) h = omega (arith, sum_fees-snoc path h)

sum_expiry-sum :
    (acc : ℕ) (path : List PathHop)
    → sum_expiry (acc % u32_size) (map hop_of path) ≡ (acc + sum_cltv path) % u32_size
unfolding sum_expiry
sum_expiry-sum acc [] = omega arith
sum_expiry-sum acc (h ∷ path) =
    let same : (acc % u32_size + h.cltv) % u32_size ≡ (acc + h.cltv) % u32_size = omega arith in
    ap (λ (n : ℕ). sum_expiry n (map hop_of path)) same
    ∙ sum_expiry-sum (acc + h.cltv) path
    ∙ ap (λ (n : ℕ). n % u32_size) (omega arith)

module _ (amount : ℕ) (graph : Graph) (our_node dest : NodeId) where
  -- A partial path of the heap: a walk from our node, with the fees of its hops as its cost.
  pub record IsPartial (e : Entry) : Type 0 where
    pub walk : IsWalk amount graph our_node e.path e.node
    pub cost_of : e.cost ≡ wrap64 (sum_fees e.path)

  -- A route: the hops of a walk to the destination, six at most, and what they add up to.
  pub record IsRoute (r : FoundRoute) : Type 0 where
    pub path : List PathHop
    pub walk : IsWalk amount graph our_node path dest
    pub short : length path ≤ 6
    pub hops_of : r.hops ≡ map hop_of path
    pub fee_of : r.total_fee ≡ wrap64 (sum_fees path)
    pub time_lock_of : r.total_time_lock ≡ sum_cltv path % u32_size

  pub extend-IsPartial :
      (e : Entry) (edge : Edge)
      → IsPartial e
      → Has edge (edges_of e.node (adjacency amount graph))
      → IsPartial (extend amount e edge)
  unfolding extend
  extend-IsPartial e edge p h = record {
    walk =
        IsWalk-snoc amount graph our_node e.path e.node edge p.walk
          ((Has-adjacency amount e.node edge graph).0 h);
    cost_of = omega (arith, p.cost_of, sum_fees-snoc e.path (hop_over amount edge));
  }

  route_of-IsRoute :
      (e : Entry) → IsPartial e → length e.path ≤ 6 → e.node ≡ dest → IsRoute (route_of e)
  unfolding route_of
  route_of-IsRoute e p short at = record {
    path = e.path;
    walk = subst (λ n. IsWalk amount graph our_node e.path n) at p.walk;
    short = short;
    hops_of = refl;
    fee_of = p.cost_of;
    time_lock_of = sum_expiry-sum 0 e.path ∙ ap (λ (n : ℕ). n % u32_size) (omega arith);
  }

  abbrev pub Kept : Search → Type 0
  Kept s = All IsPartial s.heap × All IsRoute s.found

  All-snoc :
      (rs : List FoundRoute) (r : FoundRoute)
      → All IsRoute rs
      → IsRoute r
      → All IsRoute (rs ++ r ∷ [])
  All-snoc [] r h p = (p, tt)
  All-snoc (q ∷ rs) r h p = (h.0, All-snoc rs r h.1 p)

  pub explore-Kept :
      (max_routes : ℕ) (e : Entry) (s : Search)
      → Kept (record s { heap = e ∷ s.heap })
      → Kept (explore (adjacency amount graph) dest amount max_routes e s)
  explore-Kept max_routes e s k =
      explore-rule (adjacency amount graph) dest amount max_routes Kept e s (k.0.1, k.1)
        (λ short at. (k.0.1, All-snoc s.found (route_of e) k.1 (route_of-IsRoute e k.0.0 short at)))
        λ short away new. (
          push_edges-All amount e (e.node ∷ s.visited) IsPartial
              (edges_of e.node (adjacency amount graph)) s.heap
              (λ edge h fresh. extend-IsPartial e edge k.0.0 h) k.0.1,
          k.1,
        )

  pub search_graph-IsRoute :
      {E : Type 0} (max_routes : ℕ) (routes : List FoundRoute)
      → search_graph {E = E} graph our_node dest amount max_routes ≡ ok routes
      → All IsRoute routes
  unfolding search_graph
  search_graph-IsRoute max_routes routes h =
      let adj = adjacency amount graph in
      let (s, kept, is, stopped) =
        search-rule adj dest amount max_routes Kept (λ e s more. explore-Kept max_routes e s)
          (suc (suc (edge_count adj))) (start our_node).heap [] []
          ((record { walk = refl; cost_of = refl }, tt), tt) routes h in
      subst (All IsRoute) is kept.1
