-- ===== src/Ldk/Routes/Order.antt =====
-- The order in which find_routes (src/lightning/ldk_service.rs) finds its routes.
use dln_node_knots.Prelude.{
  ℕ, suc, ◌≤◌, true, false, List, [], ◌∷◌, ◌++◌, ◌≡◌, refl, inl, inr, arith, length, Bool-cases,
  All, subst,
}
use dln_node_knots.Prelude.Select.{Has}
use dln_node_knots.Prelude.Outcome.{ok}
use dln_node_knots.Node.Types.{NodeId, Graph}
use dln_node_knots.Ldk.Routes.{
  Search, FoundRoute, push_edges, contains, extend, explore, edges_of, adjacency, search_graph,
  route_of, edge_count, start,
}
use dln_node_knots.Ldk.Routes.Queue.{Edge, Entry, push, is_gt, compare_entries}
use dln_node_knots.Ldk.Routes.Edges.{Has-adjacency}
use dln_node_knots.Ldk.Routes.Heap.{push-All, push_edges-All}
use dln_node_knots.Ldk.Routes.Loop.{explore-rule, search-rule}
use dln_node_knots.Ldk.Routes.Walks.{IsPartial, Kept, explore-Kept}
use dln_node_knots.Ldk.Routes.Totals.{Fits, IsEdge-fee, IsWalk-totals}

-- No entry is followed by a cheaper one.
abbrev pub IsSorted : List Entry → Type 0
IsSorted [] = Unit {0}
IsSorted (e ∷ heap) = All (λ (d : Entry). e.cost ≤ d.cost) heap × IsSorted heap

-- No route is followed by a cheaper one.
abbrev pub IsCheapestFirst : List FoundRoute → Type 0
IsCheapestFirst [] = Unit {0}
IsCheapestFirst (r ∷ rs) =
    All (λ (q : FoundRoute). r.total_fee ≤ q.total_fee) rs × IsCheapestFirst rs

compare_entries-cost :
    (d e : Entry)
    → (is_gt (compare_entries d e) ≡ true → e.cost ≤ d.cost)
      × (is_gt (compare_entries d e) ≡ false → d.cost ≤ e.cost)
unfolding compare_entries
compare_entries-cost d e = ground arith

All-mono :
    (a b : ℕ) (heap : List Entry)
    → a ≤ b
    → All (λ (d : Entry). b ≤ d.cost) heap
    → All (λ (d : Entry). a ≤ d.cost) heap
All-mono a b [] h hs = tt
All-mono a b (d ∷ heap) h hs = (omega (arith, hs.0), All-mono a b heap h hs.1)

push-IsSorted : (e : Entry) (heap : List Entry) → IsSorted heap → IsSorted (push e heap)
unfolding push
push-IsSorted e [] h = (tt, tt)
push-IsSorted e (d ∷ heap) h = elim (Bool-cases (is_gt (compare_entries e d))) [
  | inl later ↦ rw later (
    push-All (λ (c : Entry). d.cost ≤ c.cost) e heap ((compare_entries-cost e d).0 later) h.0,
    push-IsSorted e heap h.1,
  )
  | inr first ↦
      let le = (compare_entries-cost e d).1 first in
      rw first ((le, All-mono e.cost d.cost heap le h.0), h)
]

push_edges-IsSorted :
    (amount : ℕ) (e : Entry) (visited : List NodeId) (edges : List Edge) (heap : List Entry)
    → IsSorted heap
    → IsSorted (push_edges amount e visited edges heap)
unfolding push_edges
push_edges-IsSorted amount e visited [] heap h = h
push_edges-IsSorted amount e visited (edge ∷ edges) heap h =
    elim (Bool-cases (contains edge.next visited)) [
      | inl seen ↦ rw seen (push_edges-IsSorted amount e visited edges heap h)
      | inr new ↦ rw new (
          push_edges-IsSorted amount e visited edges (push (extend amount e edge) heap)
            (push-IsSorted (extend amount e edge) heap h))
    ]

-- What was found costs at most `bound`, and what is in the heap at least that.
pub record IsOrdered (s : Search) : Type 0 where
  pub bound : ℕ
  pub sorted : IsSorted s.heap
  pub dearer : All (λ (d : Entry). bound ≤ d.cost) s.heap
  pub cheaper : All (λ (r : FoundRoute). r.total_fee ≤ bound) s.found
  pub in_order : IsCheapestFirst s.found

All-raise :
    (a b : ℕ) (rs : List FoundRoute)
    → a ≤ b
    → All (λ (r : FoundRoute). r.total_fee ≤ a) rs
    → All (λ (r : FoundRoute). r.total_fee ≤ b) rs
All-raise a b [] h hs = tt
All-raise a b (r ∷ rs) h hs = (omega (arith, hs.0), All-raise a b rs h hs.1)

All-snoc :
    (P : FoundRoute → Type 0) (rs : List FoundRoute) (r : FoundRoute)
    → All P rs
    → P r
    → All P (rs ++ r ∷ [])
All-snoc P [] r h p = (p, tt)
All-snoc P (q ∷ rs) r h p = (h.0, All-snoc P rs r h.1 p)

IsCheapestFirst-snoc :
    (rs : List FoundRoute) (r : FoundRoute)
    → All (λ (q : FoundRoute). q.total_fee ≤ r.total_fee) rs
    → IsCheapestFirst rs
    → IsCheapestFirst (rs ++ r ∷ [])
IsCheapestFirst-snoc [] r h hs = (tt, tt)
IsCheapestFirst-snoc (q ∷ rs) r h hs = (
  All-snoc (λ (p : FoundRoute). q.total_fee ≤ p.total_fee) rs r hs.0 h.0,
  IsCheapestFirst-snoc rs r h.1 hs.1,
)

module _ (amount : ℕ) (graph : Graph) (our_node dest : NodeId) (fits : Fits graph) where
  -- A path gets no cheaper as it gets longer: the cost does not wrap around.
  extend-cost :
      (e : Entry) (edge : Edge)
      → IsPartial amount graph our_node dest e
      → length e.path ≤ 6
      → Has edge (edges_of e.node (adjacency amount graph))
      → e.cost ≤ (extend amount e edge).cost
  unfolding extend
  extend-cost e edge p short h =
      let totals = IsWalk-totals amount graph fits our_node e.path e.node p.walk in
      let fee =
        IsEdge-fee amount graph fits e.node edge ((Has-adjacency amount e.node edge graph).0 h) in
      omega (arith, totals.0, fee.0, p.cost_of)

  explore-IsOrdered :
      (max_routes : ℕ) (e : Entry) (s : Search)
      → IsPartial amount graph our_node dest e
      → IsOrdered (record s { heap = e ∷ s.heap })
      → IsOrdered (explore (adjacency amount graph) dest amount max_routes e s)
  explore-IsOrdered max_routes e s p o =
      let edges = edges_of e.node (adjacency amount graph) in
      let cheaper = All-raise o.bound e.cost s.found o.dearer.0 o.cheaper in
      explore-rule (adjacency amount graph) dest amount max_routes IsOrdered e s
        (record {
          bound = e.cost;
          sorted = o.sorted.1;
          dearer = o.sorted.0;
          cheaper = cheaper;
          in_order = o.in_order;
        })
        (λ short at.
          unfold route_of in
          record {
            bound = e.cost;
            sorted = o.sorted.1;
            dearer = o.sorted.0;
            cheaper =
                All-snoc (λ (r : FoundRoute). r.total_fee ≤ e.cost) s.found (route_of e) cheaper
                  (omega arith);
            in_order = IsCheapestFirst-snoc s.found (route_of e) cheaper o.in_order;
          })
        λ short away new. record {
          bound = e.cost;
          sorted = push_edges-IsSorted amount e (e.node ∷ s.visited) edges s.heap o.sorted.1;
          dearer =
              push_edges-All amount e (e.node ∷ s.visited) (λ (d : Entry). e.cost ≤ d.cost) edges
                s.heap (λ edge h fresh. extend-cost e edge p short h) o.sorted.0;
          cheaper = cheaper;
          in_order = o.in_order;
        }

  -- The invariant of the search: its entries are walks, and their costs are in order.
  abbrev pub Held : Search → Type 0
  Held s = Kept amount graph our_node dest s × IsOrdered s

  pub explore-Held :
      (max_routes : ℕ) (e : Entry) (s : Search)
      → Held (record s { heap = e ∷ s.heap })
      → Held (explore (adjacency amount graph) dest amount max_routes e s)
  explore-Held max_routes e s h = (
    explore-Kept amount graph our_node dest max_routes e s h.0,
    explore-IsOrdered max_routes e s h.0.0.0 h.1,
  )

  pub start-Held : Held (start our_node)
  start-Held = (
    ((record { walk = refl; cost_of = refl }, tt), tt),
    record {
      bound = 0;
      sorted = (tt, tt);
      dearer = (omega arith, tt);
      cheaper = tt;
      in_order = tt;
    },
  )

  pub search_graph-IsCheapestFirst :
      {E : Type 0} (max_routes : ℕ) (routes : List FoundRoute)
      → search_graph {E = E} graph our_node dest amount max_routes ≡ ok routes
      → IsCheapestFirst routes
  unfolding search_graph
  search_graph-IsCheapestFirst max_routes routes h =
      let adj = adjacency amount graph in
      let (s, held, is, stopped) =
        search-rule adj dest amount max_routes Held (λ e s more. explore-Held max_routes e s)
          (suc (suc (edge_count adj))) (start our_node).heap [] [] start-Held routes h in
      subst IsCheapestFirst is held.1.in_order
