-- ===== src/Ldk/Routes/Trails.antt =====
-- The heap of find_routes (src/lightning/ldk_service.rs): where its entries have come from.
use dln_node_knots.Prelude.{ℕ, false, List, [], ◌∷◌, ◌≡◌, refl, All, All-imp}
use dln_node_knots.Prelude.Outcome.{}
use dln_node_knots.Text.Equality.{}
use dln_node_knots.Node.Types.{NodeId, Graph}
use dln_node_knots.Ldk.Routes.{Search, contains, extend, explore, edges_of, adjacency, hop_over}
use dln_node_knots.Ldk.Routes.Queue.{Edge, Entry}
use dln_node_knots.Ldk.Routes.Heap.{push_edges-All}
use dln_node_knots.Ldk.Routes.Loop.{explore-rule}
use dln_node_knots.Ldk.Routes.Walks.{IsPartial}
use dln_node_knots.Ldk.Routes.Order.{}
use dln_node_knots.Ldk.Routes.Simple.{
  IsSimple, IsPast, IsPast-cons, IsPast-snoc, IsFresh-snoc, contains_self,
}

module _ (our_node : NodeId) where
  -- An entry of the heap has come over visited nodes, and over none twice.
  pub record IsTrail (visited : List NodeId) (e : Entry) : Type 0 where
    pub simple : IsSimple our_node e.path
    pub past : IsPast visited our_node e.path

  IsTrail-cons :
      (n : NodeId) (visited : List NodeId) (e : Entry) → IsTrail visited e → IsTrail (n ∷ visited) e
  IsTrail-cons n visited e t = record {
    simple = t.simple;
    past = IsPast-cons n visited our_node e.path t.past;
  }

  abbrev pub Trails : Search → Type 0
  Trails s = All (IsTrail s.visited) s.heap

module _ (amount : ℕ) (graph : Graph) (our_node dest : NodeId) where
  pub extend-IsTrail :
      (visited : List NodeId) (e : Entry) (edge : Edge)
      → IsPartial amount graph our_node dest e
      → IsTrail our_node visited e
      → contains edge.next (e.node ∷ visited) ≡ false
      → IsTrail our_node (e.node ∷ visited) (extend amount e edge)
  unfolding extend contains
  extend-IsTrail visited e edge p t new =
      let past = IsPast-cons e.node visited our_node e.path t.past in
      let here = contains_self e.node visited in
      let h = hop_over amount edge in
      record {
        simple =
            IsFresh-snoc amount graph [] (e.node ∷ visited) our_node e.path e.node h p.walk t.simple
              past here new refl;
        past =
            IsPast-snoc amount graph (e.node ∷ visited) our_node e.path e.node h p.walk past here;
      }

  pub explore-Trails :
      (max_routes : ℕ) (e : Entry) (s : Search)
      → IsPartial amount graph our_node dest e
      → Trails our_node (record s { heap = e ∷ s.heap })
      → Trails our_node (explore (adjacency amount graph) dest amount max_routes e s)
  explore-Trails max_routes e s p t =
      explore-rule (adjacency amount graph) dest amount max_routes (Trails our_node) e s t.1
        (λ short at. t.1)
        λ short away new.
          push_edges-All amount e (e.node ∷ s.visited) (IsTrail our_node (e.node ∷ s.visited))
            (edges_of e.node (adjacency amount graph)) s.heap
            (λ edge has fresh. extend-IsTrail s.visited e edge p t.0 fresh)
            (All-imp (IsTrail our_node s.visited) (IsTrail our_node (e.node ∷ s.visited)) s.heap
              (λ d. IsTrail-cons our_node e.node s.visited d) t.1)
