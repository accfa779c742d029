-- ===== src/Ldk/Routes/Cheapest.antt =====
-- The search of find_routes (src/lightning/ldk_service.rs) along a walk over the graph: until a route
-- is found, an entry of its heap leads on along the walk, or along a cheaper one.
pub mod Found
use dln_node_knots.Prelude.{
  ℕ, suc, ◌+◌, ◌≤◌, ◌<◌, true, false, List, [], ◌∷◌, ◌++◌, ◌≡◌, ◌≢◌, refl, sym, ap, ◌∙◌, ◌⊎◌, inl,
  inr, arith, length, All, All-imp, subst,
}
use dln_node_knots.Prelude.Select.{Has}
use dln_node_knots.Prelude.Outcome.{ok}
use dln_node_knots.Text.{text_eq}
use dln_node_knots.Text.Equality.{text_eq_iff}
use dln_node_knots.Node.Types.{NodeId, Graph}
use dln_node_knots.Ldk.Routes.{
  Search, FoundRoute, push_edges, contains, extend, explore, edges_of, adjacency, search,
  search_graph, route_of, edge_count, hop_fee, hop_over, start,
}
use dln_node_knots.Ldk.Routes.Queue.{Edge, Entry, PathHop}
use dln_node_knots.Ldk.Routes.Edges.{IsEdge, Has-adjacency}
use dln_node_knots.Ldk.Routes.Heap.{push_edges-All, Has-push_edges, pushed-push_edges}
use dln_node_knots.Ldk.Routes.Loop.{
  IsSkipped, arrive, visit, explore-cases, explore-rule, search-rule,
}
use dln_node_knots.Ldk.Routes.Walks.{IsWalk, IsPartial, extend-IsPartial, sum_fees, priced}
use dln_node_knots.Ldk.Routes.Totals.{Fits}
use dln_node_knots.Ldk.Routes.Order.{IsSorted, Held, explore-Held, start-Held}
use dln_node_knots.Ldk.Routes.Direct.{All-Has}
use dln_node_knots.Ldk.Routes.Trails.{IsTrail, extend-IsTrail}
use dln_node_knots.Ldk.Routes.Simple.{
  IsFresh, IsSimple, IsPast, IsPast-cons, IsPast-snoc, IsFresh-snoc, IsFresh-new, IsFresh-split,
  IsWalk-Rest, contains-cons, contains_self,
}

-- The limit of six hops cuts off no walk from the node that visits no node twice.
abbrev pub IsWithinLimit : ℕ → Graph → NodeId → Type 0
IsWithinLimit amount graph our_node =
    (path : List PathHop) (to : NodeId)
    → IsWalk amount graph our_node path to
    → IsSimple our_node path
    → length path ≤ 6

module _ (amount : ℕ) (graph : Graph) (our_node dest : NodeId) where
  -- An entry from which the rest of a walk, over nodes that are not visited, costs `total` at most.
  pub record IsAhead (total : ℕ) (s : Search) : Type 0 where
    pub entry : Entry
    pub rest : List PathHop
    pub listed : Has entry s.heap
    pub short : length entry.path ≤ 6
    pub walk : IsWalk amount graph entry.node rest dest
    pub fresh : IsFresh s.visited entry.node rest
    pub price : entry.cost + sum_fees rest ≤ total
    pub none_yet : s.found ≡ []

  pub record IsFirst (total : ℕ) (routes : List FoundRoute) : Type 0 where
    pub route : FoundRoute
    pub others : List FoundRoute
    pub first : routes ≡ route ∷ others
    pub fee : route.total_fee ≤ total

  abbrev pub Leads : ℕ → Search → Type 0
  Leads total s = IsAhead total s ⊎ IsFirst total s.found

  module _ (limit : IsWithinLimit amount graph our_node) (max_routes : ℕ) (total : ℕ) where
    -- A visit goes on along the walk.
    visit-IsAhead :
        (e : Entry) (s : Search) (rest : List PathHop)
        → IsPartial amount graph our_node dest e
        → IsTrail our_node s.visited e
        → text_eq e.node dest ≡ false
        → IsWalk amount graph e.node rest dest
        → IsFresh s.visited e.node rest
        → e.cost + sum_fees rest ≤ total
        → s.found ≡ []
        → IsAhead total (visit (adjacency amount graph) dest amount max_routes e s)
    unfolding extend hop_fee
    visit-IsAhead e s [] p t away walk fresh price none_yet =
        absurd (ground (arith, text_eq_iff e.node dest, walk))
    visit-IsAhead e s (h ∷ rest) p t away ((edge, is_edge, same), walk) fresh price none_yet =
        let has = (Has-adjacency amount e.node edge graph).1 is_edge in
        let at : h.node ≡ edge.next = ap (λ (g : PathHop). g.node) same in
        let beyond = subst (λ n. IsFresh (e.node ∷ s.visited) n rest) at fresh.1 in
        let unseen = IsFresh-new (e.node ∷ s.visited) edge.next rest beyond in
        record {
          entry = extend amount e edge;
          rest = rest;
          listed =
              pushed-push_edges amount e (e.node ∷ s.visited) edge
                (edges_of e.node (adjacency amount graph)) s.heap unseen has;
          short =
              limit (extend amount e edge).path edge.next
                (extend-IsPartial amount graph our_node dest e edge p has).walk
                (extend-IsTrail amount graph our_node dest s.visited e edge p t unseen).simple;
          walk = subst (λ n. IsWalk amount graph n rest dest) at walk;
          fresh = beyond;
          price = omega (arith, price, ap (λ (g : PathHop). g.fee) same);
          none_yet = none_yet;
        }

    arrive-IsFirst :
        (e : Entry) (s : Search)
        → e.cost ≤ total
        → s.found ≡ []
        → IsFirst total (arrive (adjacency amount graph) dest amount max_routes e s).found
    unfolding route_of
    arrive-IsFirst e s price none_yet = record {
      route = route_of e;
      others = [];
      first = ap (λ (rs : List FoundRoute). rs ++ route_of e ∷ []) none_yet;
      fee = price;
    }

    -- The walk goes through the entry that was popped, or stays ahead.
    visit-Leads :
        (e : Entry) (s : Search)
        → IsPartial amount graph our_node dest e
        → IsTrail our_node s.visited e
        → text_eq e.node dest ≡ false
        → contains e.node s.visited ≡ false
        → (a : IsAhead total s) → e.cost ≤ a.entry.cost
        → IsAhead total (visit (adjacency amount graph) dest amount max_routes e s)
    visit-Leads e s p t away new a le =
        elim (IsFresh-split amount graph dest e.node s.visited a.entry.node a.rest new a.walk
          a.fresh) [
            | inl avoids ↦ record {
              entry = a.entry;
              rest = a.rest;
              listed =
                  Has-push_edges amount e (e.node ∷ s.visited) a.entry
                    (edges_of e.node (adjacency amount graph)) s.heap a.listed;
              short = a.short;
              walk = a.walk;
              fresh = avoids;
              price = a.price;
              none_yet = a.none_yet;
            }
            | inr (path, walk, fresh, le') ↦
                visit-IsAhead e s path p t away walk fresh (omega (arith, le, le', a.price))
                  a.none_yet
          ]

    explore-IsFirst :
        (e : Entry) (s : Search)
        → IsFirst total s.found
        → IsFirst total (explore (adjacency amount graph) dest amount max_routes e s).found
    explore-IsFirst e s f =
        explore-rule (adjacency amount graph) dest amount max_routes (λ t. IsFirst total t.found) e
          s f
          (λ short at. record {
            route = f.route;
            others = f.others ++ route_of e ∷ [];
            first = ap (λ (rs : List FoundRoute). rs ++ route_of e ∷ []) f.first;
            fee = f.fee;
          })
          (λ short away new. f)

    -- Where the walk is ahead from the entry that was popped, that one is not left aside.
    popped-Leads :
        (e : Entry) (s : Search) (rest : List PathHop)
        → IsPartial amount graph our_node dest e
        → IsTrail our_node s.visited e
        → length e.path ≤ 6
        → IsWalk amount graph e.node rest dest
        → IsFresh s.visited e.node rest
        → e.cost + sum_fees rest ≤ total
        → s.found ≡ []
        → Leads total (explore (adjacency amount graph) dest amount max_routes e s)
    popped-Leads e s rest p t short walk fresh price none_yet =
        explore-cases (adjacency amount graph) dest amount max_routes (Leads total) e s
          (λ skipped. absurd (elim skipped [
            | inl long ↦ omega arith
            | inr seen ↦ ground (arith, seen, IsFresh-new s.visited e.node rest fresh)
          ]))
          (λ short' at. inr (arrive-IsFirst e s (omega (arith, price)) none_yet))
          λ short' away new. inl (visit-IsAhead e s rest p t away walk fresh price none_yet)

    listed-Leads :
        (e : Entry) (s : Search)
        → IsPartial amount graph our_node dest e
        → IsTrail our_node s.visited e
        → (a : IsAhead total s) → e.cost ≤ a.entry.cost
        → Leads total (explore (adjacency amount graph) dest amount max_routes e s)
    listed-Leads e s p t a le =
        explore-rule (adjacency amount graph) dest amount max_routes (Leads total) e s (inl a)
          (λ short at. inr (arrive-IsFirst e s (omega (arith, le, a.price)) a.none_yet))
          λ short away new. inl (visit-Leads e s p t away new a le)

    pub explore-Leads :
        (e : Entry) (s : Search)
        → IsPartial amount graph our_node dest e
        → IsTrail our_node s.visited e
        → IsSorted (e ∷ s.heap)
        → Leads total (record s { heap = e ∷ s.heap })
        → Leads total (explore (adjacency amount graph) dest amount max_routes e s)
    explore-Leads e s p t sorted (inr f) = inr (explore-IsFirst e s f)
    explore-Leads e s p t sorted (inl a) = elim a.listed [
      | inl same ↦
          popped-Leads e s a.rest p t (subst (λ (d : Entry). length d.path ≤ 6) same a.short)
            (subst (λ (d : Entry). IsWalk amount graph d.node a.rest dest) same a.walk)
            (subst (λ (d : Entry). IsFresh s.visited d.node a.rest) same a.fresh)
            (subst (λ (d : Entry). d.cost + sum_fees a.rest ≤ total) same a.price) a.none_yet
      | inr has ↦
          listed-Leads e s p t
            (record {
              entry = a.entry;
              rest = a.rest;
              listed = has;
              short = a.short;
              walk = a.walk;
              fresh = a.fresh;
              price = a.price;
              none_yet = a.none_yet;
            })
            (All-Has e.cost s.heap a.entry sorted.0 has)
    ]
