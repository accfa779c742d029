-- ===== src/Ldk/Routes/Direct.antt =====
-- What find_routes (src/lightning/ldk_service.rs) answers where a channel leads to the destination.
use dln_node_knots.Prelude.{
  ℕ, suc, ◌≤◌, ◌<◌, false, List, [], ◌∷◌, ◌++◌, ◌≡◌, ◌≢◌, refl, sym, ap, ◌∙◌, ◌⊎◌, inl, inr, arith,
  length, All, subst,
}
use dln_node_knots.Prelude.Select.{Has}
use dln_node_knots.Prelude.Outcome.{ok}
use dln_node_knots.Text.{text_eq}
use dln_node_knots.Text.Equality.{text_eq_iff}
use dln_node_knots.Node.Types.{NodeId, Graph}
use dln_node_knots.Ldk.Routes.{
  Search, FoundRoute, push_edges, contains, extend, explore, edges_of, adjacency, search,
  search_graph, route_of, edge_count, hop_fee,
}
use dln_node_knots.Ldk.Routes.Queue.{Edge, Entry}
use dln_node_knots.Ldk.Routes.Edges.{IsEdge, Has-adjacency}
use dln_node_knots.Ldk.Routes.Heap.{Has-push_edges, pushed-push_edges}
use dln_node_knots.Ldk.Routes.Loop.{explore-rule, search-rule}
use dln_node_knots.Ldk.Routes.Totals.{Fits}
use dln_node_knots.Ldk.Routes.Order.{IsSorted, Held, explore-Held, start-Held}

explore-arrive :
    (amount : ℕ) (graph : Graph) (dest : NodeId) (max_routes : ℕ) (e : Entry) (s : Search)
    → length e.path ≤ 6
    → e.node ≡ dest
    → explore (adjacency amount graph) dest amount max_routes e s
      ≡ record s { found = s.found ++ route_of e ∷ [] }
unfolding explore
explore-arrive amount graph dest max_routes e s short at =
    let here = (text_eq_iff e.node dest).1 at in ground (arith, short, here)

pub All-Has :
    (n : ℕ) (heap : List Entry) (d : Entry)
    → All (λ (e : Entry). n ≤ e.cost) heap
    → Has d heap
    → n ≤ d.cost
All-Has n [] d hs has = absurd has
All-Has n (e ∷ heap) d (h, hs) (inl same) = subst (λ (c : Entry). n ≤ c.cost) (sym same) h
All-Has n (e ∷ heap) d (h, hs) (inr has) = All-Has n heap d hs has

-- The entry `d` is still to come, or the first route found costs no more than it.
Meets : Entry → Search → Type 0
Meets d s =
    ((s.found ≡ []) × Has d s.heap)
    ⊎ ((r : FoundRoute) × (rs : List FoundRoute) × (s.found ≡ r ∷ rs) × (r.total_fee ≤ d.cost))

module _ (amount : ℕ) (graph : Graph) (dest : NodeId) (max_routes : ℕ) (d : Entry)
    (short : length d.path ≤ 6) (at : d.node ≡ dest) where
  arrive-Meets :
      (e : Entry) (s : Search)
      → e.cost ≤ d.cost
      → Meets d (record s { heap = e ∷ s.heap })
      → Meets d (record s { found = s.found ++ route_of e ∷ [] })
  unfolding Meets route_of
  arrive-Meets e s le (inl (none_yet, has)) =
      inr (route_of e, [], ap (λ (rs : List FoundRoute). rs ++ route_of e ∷ []) none_yet, le)
  arrive-Meets e s le (inr (r, rs, is, fee)) =
      inr (r, rs ++ route_of e ∷ [], ap (λ (qs : List FoundRoute). qs ++ route_of e ∷ []) is, fee)

  explore-Meets :
      (e : Entry) (s : Search)
      → IsSorted (e ∷ s.heap)
      → Meets d (record s { heap = e ∷ s.heap })
      → Meets d (explore (adjacency amount graph) dest amount max_routes e s)
  unfolding Meets
  explore-Meets e s sorted (inl (none_yet, inl same)) =
      let le : e.cost ≤ d.cost = subst (λ (c : Entry). c.cost ≤ d.cost) same (omega arith) in
      rw
        (explore-arrive amount graph dest max_routes e s
          (subst (λ (c : Entry). length c.path ≤ 6) same short)
          (ap (λ (c : Entry). c.node) (sym same) ∙ at))
        (arrive-Meets e s le (inl (none_yet, inl same)))
  explore-Meets e s sorted (inl (none_yet, inr has)) =
      explore-rule (adjacency amount graph) dest amount max_routes (Meets d) e s
        (inl (none_yet, has))
        (λ short' at'.
          arrive-Meets e s (All-Has e.cost s.heap d sorted.0 has) (inl (none_yet, inr has)))
        λ short' away new. inl (
          none_yet,
          Has-push_edges amount e (e.node ∷ s.visited) d (edges_of e.node (adjacency amount graph))
              s.heap has,
        )
  explore-Meets e s sorted (inr (r, rs, is, fee)) =
      explore-rule (adjacency amount graph) dest amount max_routes (Meets d) e s
        (inr (r, rs, is, fee))
        (λ short' at'.
          inr (
            r,
            rs ++ route_of e ∷ [],
            ap (λ (qs : List FoundRoute). qs ++ route_of e ∷ []) is,
            fee,
          ))
        λ short' away new. inr (r, rs, is, fee)

  -- At the end there is a first route.
  Meets-end :
      (s : Search)
      → 0 < max_routes
      → Meets d s
      → (s.heap ≡ []) ⊎ (max_routes ≤ length s.found)
      → (r : FoundRoute) × (rs : List FoundRoute) × (s.found ≡ r ∷ rs) × (r.total_fee ≤ d.cost)
  unfolding Meets
  Meets-end s some_asked (inl (none_yet, has)) (inl empty) = absurd (subst (Has d) empty has)
  Meets-end s some_asked (inl (none_yet, has)) (inr enough) =
      absurd (omega (arith, ap (λ (rs : List FoundRoute). length rs) none_yet))
  Meets-end s some_asked (inr first) stopped = first

module _ (amount : ℕ) (graph : Graph) (our_node dest : NodeId) (fits : Fits graph) (edge : Edge)
    (is_edge : IsEdge amount graph graph.list_channels our_node edge) (at : edge.next ≡ dest)
    (elsewhere : our_node ≢ dest) where
  abbrev first_entry : Entry
  first_entry = record { cost = 0; node = our_node; path = [] }

  abbrev direct_entry : Entry
  direct_entry = extend amount first_entry edge

  direct_entry-Has : Has direct_entry (
      push_edges amount first_entry (our_node ∷ []) (edges_of our_node (adjacency amount graph)) [])
  unfolding contains
  direct_entry-Has =
      pushed-push_edges amount first_entry (our_node ∷ []) edge
        (edges_of our_node (adjacency amount graph)) []
        (ground (arith, text_eq_iff our_node edge.next, at, elsewhere))
        ((Has-adjacency amount our_node edge graph).1 is_edge)

  first-Meets :
      (max_routes : ℕ)
      → Meets direct_entry (
          explore
            (adjacency amount graph)
            dest
            amount
            max_routes
            first_entry
            (record { heap = []; visited = []; found = [] }))
  unfolding explore contains Meets
  first-Meets max_routes =
      let away : text_eq our_node dest ≡ false =
        ground (arith, text_eq_iff our_node dest, elsewhere) in
      rw away (inl (refl, direct_entry-Has))

  -- The route over that channel is found, or one that costs no more.
  pub search_graph_direct :
      {E : Type 0} (max_routes : ℕ) (routes : List FoundRoute)
      → 0 < max_routes
      → search_graph {E = E} graph our_node dest amount max_routes ≡ ok routes
      → (r : FoundRoute) × (rs : List FoundRoute) × (routes ≡ r ∷ rs)
        × (r.total_fee ≤ hop_fee amount edge)
  unfolding search_graph search extend
  search_graph_direct {E} max_routes routes some_asked h =
      let adj = adjacency amount graph in
      let s : Search = record { heap = []; visited = []; found = [] } in
      let t = explore adj dest amount max_routes first_entry s in
      let rest : search adj dest amount max_routes {E = E} (suc (edge_count adj)) t ≡ ok routes =
        ground (arith, h) in
      let (u, held, is, stopped) =
        search-rule adj dest amount max_routes
          (λ v. Held amount graph our_node dest fits v × Meets direct_entry v)
          (λ e v more k. (
            explore-Held amount graph our_node dest fits max_routes e v k.0,
            explore-Meets amount graph dest max_routes direct_entry (omega arith) at e v
                k.0.1.sorted k.1,
          ))
          (suc (edge_count adj)) t.heap t.visited t.found
          (
            explore-Held amount graph our_node dest fits max_routes first_entry s
                (start-Held amount graph our_node dest fits),
            first-Meets max_routes,
          )
          routes rest in
      let (r, rs, first, fee) =
        Meets-end amount graph dest max_routes direct_entry (omega arith) at u some_asked held.1
          stopped in
      (r, rs, sym is ∙ first, omega (arith, fee))
