-- ===== src/Ldk/Routes/Loop.antt =====
-- The loop of find_routes (src/lightning/ldk_service.rs): its rounds and its state.
use dln_node_knots.Prelude.{
  ℕ, zero, suc, ◌+◌, ◌≤◌, ◌<◌, true, false, List, [], ◌∷◌, ◌≡◌, refl, ◌⊎◌, inl, ◌++◌, inr, arith,
  length, leb, ltb, if◌then◌else◌, Bool-cases,
}
use dln_node_knots.Prelude.Outcome.{ok}
use dln_node_knots.Text.{text_eq}
use dln_node_knots.Text.Equality.{text_eq_iff}
use dln_node_knots.TextMap.{get}
use dln_node_knots.Node.Types.{NodeId, Graph}
use dln_node_knots.Ldk.Routes.{
  Adjacency, Search, FoundRoute, push_edges, contains, edges_of, extend, explore, search,
  edge_count, start, adjacency, search_graph, route_of,
}
use dln_node_knots.Ldk.Routes.Queue.{Edge, Entry, push}

length-push : (e : Entry) (heap : List Entry) → length (push e heap) ≡ suc (length heap)
unfolding push
length-push e [] = refl
length-push e (d ∷ heap) = ground (arith, length-push e heap)

length-push_edges :
    (amount : ℕ) (e : Entry) (visited : List NodeId) (edges : List Edge) (heap : List Entry)
    → length (push_edges amount e visited edges heap) ≤ length edges + length heap
unfolding push_edges
length-push_edges amount e visited [] heap = omega arith
length-push_edges amount e visited (edge ∷ edges) heap =
    let pushed = if contains edge.next visited then heap else push (extend amount e edge) heap in
    let ih = length-push_edges amount e visited edges pushed in
    elim (Bool-cases (contains edge.next visited)) [
      | inl seen ↦ ground (arith, ih)
      | inr new ↦ ground (arith, ih, length-push (extend amount e edge) heap)
    ]

-- The edges of the nodes that were not visited yet.
pending : List NodeId → Adjacency → ℕ
pending visited [] = 0
pending visited ((node, edges) ∷ adj) =
    let rest = pending visited adj in if contains node visited then rest else length edges + rest

pending-start : (adj : Adjacency) → pending [] adj ≡ edge_count adj
unfolding pending edge_count contains
pending-start [] = refl
pending-start ((node, edges) ∷ adj) = omega (arith, pending-start adj)

pending_mono :
    (n : NodeId) (visited : List NodeId) (adj : Adjacency)
    → pending (n ∷ visited) adj ≤ pending visited adj
unfolding pending contains
pending_mono n visited [] = omega arith
pending_mono n visited ((node, edges) ∷ adj) = ground (arith, pending_mono n visited adj)

-- A visit takes the node's edges off those that are pending.
pending-visit :
    (n : NodeId) (visited : List NodeId) (adj : Adjacency)
    → contains n visited ≡ false
    → length (edges_of n adj) + pending (n ∷ visited) adj ≤ pending visited adj
unfolding pending edges_of get contains
pending-visit n visited [] new = omega arith
pending-visit n visited ((node, edges) ∷ adj) new = ground (
  arith,
  pending-visit n visited adj new,
  pending_mono n visited adj,
  text_eq_iff node n,
  text_eq_iff n node,
)

abbrev work : Adjacency → Search → ℕ
work adj s = length s.heap + pending s.visited adj

module _ (adj : Adjacency) (dest : NodeId) (amount max_routes : ℕ) where
  abbrev pub arrive : Entry → Search → Search
  arrive e s = record s { found = s.found ++ route_of e ∷ [] }

  abbrev pub visit : Entry → Search → Search
  visit e s = record {
    heap = push_edges amount e (e.node ∷ s.visited) (edges_of e.node adj) s.heap;
    visited = e.node ∷ s.visited;
    found = s.found;
  }

  -- Why a round leaves an entry aside.
  abbrev pub IsSkipped : Entry → Search → Type 0
  IsSkipped e s = (6 < length e.path) ⊎ (contains e.node s.visited ≡ true)

  -- What holds after a round, when it holds of the three states that a round can leave.
  pub explore-cases :
      (P : Search → Type 0) (e : Entry) (s : Search)
      → (IsSkipped e s → P s)
      → (length e.path ≤ 6 → e.node ≡ dest → P (arrive e s))
      → (length e.path ≤ 6
          → text_eq e.node dest ≡ false
          → contains e.node s.visited ≡ false
          → P (visit e s))
      → P (explore adj dest amount max_routes e s)
  unfolding explore
  explore-cases P e s skipped arrived visited = elim (Bool-cases (ltb 6 (length e.path))) [
    | inl long ↦ rw long (skipped (inl (ground arith)))
    | inr short ↦ elim (Bool-cases (text_eq e.node dest)) [
      | inl at ↦ rw (short, at) (arrived (ground arith) ((text_eq_iff e.node dest).0 at))
      | inr away ↦ elim (Bool-cases (contains e.node s.visited)) [
        | inl seen ↦ rw (short, away, seen) (skipped (inr seen))
        | inr new ↦ rw (short, away, new) (visited (ground arith) away new)
      ]
    ]
  ]

  -- The same where it held before the round.
  pub explore-rule :
      (P : Search → Type 0) (e : Entry) (s : Search)
      → P s
      → (length e.path ≤ 6 → e.node ≡ dest → P (arrive e s))
      → (length e.path ≤ 6
          → text_eq e.node dest ≡ false
          → contains e.node s.visited ≡ false
          → P (visit e s))
      → P (explore adj dest amount max_routes e s)
  explore-rule P e s skipped = explore-cases P e s (λ _. skipped)

  explore-work :
      (e : Entry) (s : Search) → work adj (explore adj dest amount max_routes e s) ≤ work adj s
  explore-work e s =
      explore-rule (λ t. work adj t ≤ work adj s) e s (omega arith) (λ short at. omega arith)
        λ short away new. omega (
          arith,
          length-push_edges amount e (e.node ∷ s.visited) (edges_of e.node adj) s.heap,
          pending-visit e.node s.visited adj new,
        )

  module _ {E : Type 0} where
    -- The rounds are enough when they are more than the work that is left.
    search-ends :
        (rounds : ℕ) (heap : List Entry) (visited : List NodeId) (found : List FoundRoute)
        → length heap + pending visited adj ≤ rounds
        → (routes : List FoundRoute) × (search adj dest amount max_routes {E = E}
              (suc rounds)
              (record { heap = heap; visited = visited; found = found })
            ≡ ok routes)
    unfolding search
    search-ends rounds [] visited found h = (found, refl)
    search-ends zero (e ∷ heap) visited found h = absurd (omega arith)
    search-ends (suc rounds) (e ∷ heap) visited found h =
        let s : Search = record { heap = heap; visited = visited; found = found } in
        let t = explore adj dest amount max_routes e s in
        elim (Bool-cases (leb max_routes (length found))) [
          | inl enough ↦ (found, ground arith)
          | inr more ↦
              let (routes, ends) =
                search-ends rounds t.heap t.visited t.found (omega (arith, explore-work e s)) in
              (routes, ground (arith, ends))
        ]

    -- A property of the state that every round keeps holds at the end, where the heap is empty or
    -- enough routes are found.
    pub search-rule :
        (P : Search → Type 0)
        → ((e : Entry) (s : Search)
            → length s.found < max_routes
            → P (record s { heap = e ∷ s.heap })
            → P (explore adj dest amount max_routes e s))
        → (rounds : ℕ) (heap : List Entry) (visited : List NodeId) (found : List FoundRoute)
        → P (record { heap = heap; visited = visited; found = found })
        → (routes : List FoundRoute)
        → search adj dest amount max_routes {E = E} rounds
            (record { heap = heap; visited = visited; found = found })
          ≡ ok routes
        → (s : Search) × P s × (s.found ≡ routes) × ((s.heap ≡ []) ⊎ (max_routes ≤ length s.found))
    unfolding search
    search-rule P round zero heap visited found start routes h = cc
    search-rule P round (suc rounds) [] visited found start routes h =
        (record { heap = []; visited = visited; found = found }, start, cc, inl refl)
    search-rule P round (suc rounds) (e ∷ heap) visited found start routes h =
        let s : Search = record { heap = heap; visited = visited; found = found } in
        let t = explore adj dest amount max_routes e s in
        elim (Bool-cases (leb max_routes (length found))) [
          | inl enough ↦ (record s { heap = e ∷ heap }, start, ground arith, inr (ground arith))
          | inr more ↦
              search-rule P round rounds t.heap t.visited t.found (round e s (ground arith) start)
                routes (ground (arith, h))
        ]

module _ {E : Type 0} (graph : Graph) (our_node dest : NodeId) (amount max_routes : ℕ) where
  pub search_graph-ends :
      (routes : List FoundRoute) × (search_graph {E = E} graph our_node dest amount max_routes
        ≡ ok routes)
  unfolding search_graph
  search_graph-ends =
      let adj = adjacency amount graph in
      search-ends adj dest amount max_routes (suc (edge_count adj)) (start our_node).heap [] []
        (omega (arith, pending-start adj))
